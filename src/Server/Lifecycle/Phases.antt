-- ===== src/Server/Lifecycle/Phases.antt =====
-- The phases of a server: its start, its stop and its end.
use liboctopipes.Prelude.{◌≡◌, Bool, true, false, some, List, [], ◌∷◌}
use liboctopipes.Types.{ok, pending, ◌>>=◌, Bytes}
use liboctopipes.Server.{
  success, uninitialized, thread_already_running, running, stopped, is_running, Worker, Server,
}
use liboctopipes.Server.Directory.{create_clients_dir}
use liboctopipes.Server.Inbox.{message_inbox_expunge, expunge}
use liboctopipes.Server.Lifecycle.{
  is_created, StartScript, start_cap_listener, stop_cap_listener, cleanup_workers, free_server,
  server_cleanup,
}

-- The system does all that a start asks of it.
pub record Starts (script : StartScript) : Type 0 where
  pub removed : List Bytes
  pub prepared : create_clients_dir script.directory ≡ ok (true, removed)
  pub piped : is_created script.pipe ≡ true
  pub locks : script.mutex ≡ true
  pub threads : script.thread ≡ true

module _ (server : Server) (script : StartScript) (starts : Starts script)
    (idle : is_running server.state ≡ false) where
  start_cap_listener-running :
      start_cap_listener script server
      ≡ ok (success, record server { state = running; locked = false })
  unfolding start_cap_listener
  start_cap_listener-running =
      rw (idle, starts.prepared, starts.piped, starts.locks, starts.threads)

  -- A server that does not run, whose system does all that a start asks of it. Starting it succeeds, and
  -- starting it again is refused and changes nothing. Stopping it then succeeds if the thread is
  -- joined; it is STOPPED, its mutex is free, and it is
  -- otherwise as it was before the start. Stopping it again is refused and
  -- changes nothing.
  pub stop_cap_listener-start_cap_listener :
      (again : StartScript) (joined : Bool)
      → (start_cap_listener script server
          ≡ ok (success, record server { state = running; locked = false }))
        × ((start_cap_listener script server >>= λ started. start_cap_listener again started.1)
            ≡ ok (thread_already_running, record server { state = running; locked = false }))
        × ((start_cap_listener script server >>= λ started. ok (stop_cap_listener true started.1))
            ≡ ok (success, record server { state = stopped; locked = false }))
        × ((start_cap_listener script server >>= λ started.
              ok (stop_cap_listener joined (stop_cap_listener true started.1).1))
            ≡ ok (uninitialized, record server { state = stopped; locked = false }))
  unfolding start_cap_listener stop_cap_listener
  stop_cap_listener-start_cap_listener again joined = (
    start_cap_listener-running,
    rw start_cap_listener-running,
    rw start_cap_listener-running,
    rw start_cap_listener-running,
  )

-- A server with some worker whose thread runs, and with nothing in the inbox of the CAP.
-- octopipes_server_cleanup of it while it runs waits for the thread of the worker. Behind
-- octopipes_server_stop_cap_listener it succeeds without a wait for any thread: the workers are left
-- running, and nothing frees them.
pub server_cleanup_stopped :
    (server : Server) (worker : Worker) (workers : List Worker)
    → server.state ≡ running
    → server.workers ≡ some (worker ∷ workers)
    → server.cap_inbox ≡ some (some [])
    → (server_cleanup true [] (some server) ≡ pending)
      × (server_cleanup true [] (some (stop_cap_listener true server).1) ≡ ok success)
unfolding server_cleanup stop_cap_listener cleanup_workers message_inbox_expunge expunge
server_cleanup_stopped server worker workers runs known empty =
    (rw (runs, known), rw (runs, free_server, empty))
