-- ===== src/Server/Lifecycle.antt =====
-- octopipes_server_init, _cleanup, _start_cap_listener and _stop_cap_listener, and the two functions
-- that block the CAP.
pub mod Phases
use liboctopipes.Prelude.{
  ℕ, Bool, true, false, ◌&&◌, Option, none, some, List, [], ◌∷◌, if◌then◌else◌,
}
use liboctopipes.Types.{
  Outcome, ok, fault, null_dereference, ◌>>=◌, ◌>>◌, require, Error, Bytes, Heap,
}
use liboctopipes.Memory.{scan_string}
use liboctopipes.Pipes.{FileAnswer, pipe_create}
use liboctopipes.Server.{
  ServerError, success, uninitialized, thread_error, thread_already_running, bad_client_dir,
  open_failed, is_success, ServerState, running, block, stopped, is_running, is_blocked, Worker,
  Server, registry,
}
use liboctopipes.Server.Directory.{DirectoryScript, create_clients_dir}
use liboctopipes.Server.Inbox.{message_inbox_expunge}
use liboctopipes.Server.Workers.{worker_cleanup}

-- octopipes_server_init. Allocation 0 is the server, 1 and 2 the paths, and 3 the inbox. Where one
-- of 1 to 3 fails the inbox is NULL, and message_inbox_cleanup, which is called all the same, reads
-- through it.
unfoldable pub server_init : Heap → Bytes → Bytes → ℕ → Outcome Server
server_init heap cap_path client_folder version = do
  require (heap 0) Error.bad_alloc
  path ← scan_string cap_path
  if heap 1
      then (do
        folder ← scan_string client_folder
        if heap 2 && heap 3
            then ok (record {
              version = version;
              state = ServerState.init;
              cap_pipe = path;
              client_folder = folder;
              locked = false;
              cap_inbox = some (some []);
              workers = some [];
            })
            else fault null_dereference)
      else fault null_dereference

-- The answers to a start: those to create_clients_dir, `mkfifo`, `pthread_mutex_init` and `pthread_create`.
pub record StartScript : Type 0 where
  pub directory : DirectoryScript
  pub pipe : FileAnswer
  pub mutex : Bool
  pub thread : Bool

abbrev pub is_created : FileAnswer → Bool
is_created answer = elim (pipe_create answer) [ Error.success ↦ true | _ ↦ false ]

-- octopipes_server_start_cap_listener. `pthread_mutex_init` leaves a free mutex.
unfoldable pub start_cap_listener : StartScript → Server → Outcome (ServerError × Server)
start_cap_listener script server =
    if is_running server.state then ok (thread_already_running, server) else (do
      directory ← create_clients_dir script.directory
      if directory.0
          then (if is_created script.pipe
              then ok (
                (if script.mutex && script.thread then success else thread_error),
                record server {
                  state = running;
                  locked = (if script.mutex then false else server.locked);
                },
              )
              else ok (open_failed, server))
          else ok (bad_client_dir, server))

-- octopipes_server_stop_cap_listener; `joined` says whether `pthread_join` returned 0.
unfoldable pub stop_cap_listener : Bool → Server → ServerError × Server
stop_cap_listener joined server =
    if is_running server.state
    then ((if joined then success else thread_error), record server { state = stopped })
    else (uninitialized, server)

-- octopipes_server_lock_cap.
unfoldable pub lock_cap : Server → ServerError × Server
lock_cap server =
    if is_running server.state
    then (success, record server { state = block })
    else (uninitialized, server)

-- octopipes_server_unlock_cap.
unfoldable pub unlock_cap : Server → Server
unlock_cap server = if is_blocked server.state then record server { state = running } else server

-- The workers' part of octopipes_server_cleanup.
unfoldable pub cleanup_workers : List Bool → List Worker → Outcome ServerError
cleanup_workers answers [] = ok success
cleanup_workers [] (worker ∷ workers) = Outcome.pending
cleanup_workers (joined ∷ answers) (worker ∷ workers) = do
  cleaned ← worker_cleanup joined worker
  elim (is_success cleaned.0) [ true ↦ cleanup_workers answers workers | false ↦ ok cleaned.0 ]

-- The free of the server itself.
abbrev pub free_server : Server → Outcome ServerError
free_server server = elim server.cap_inbox [
  | none ↦ fault null_dereference
  | some inbox ↦ do u ← message_inbox_expunge inbox; ok success
]

-- octopipes_server_cleanup. The workers are stopped only while the state is RUNNING. `answers` are
-- those of `pthread_join`, that of the CAP's listener first.
unfoldable pub server_cleanup : Bool → List Bool → Option Server → Outcome ServerError
server_cleanup joined answers none = ok success
server_cleanup joined answers (some server) =
    if is_running server.state
    then (if joined
        then (do
          workers ← registry server
          code ← cleanup_workers answers workers
          if is_success code then free_server server else ok code)
        else ok thread_error)
    else free_server server
