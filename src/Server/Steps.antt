-- ===== src/Server/Steps.antt =====
-- The calls on a server and the rounds of its threads as steps, and what holds through all of them.
mod Tests
use liboctopipes.Prelude.{
  ℕ, ◌≡◌, refl, sym, subst, Bool, some, List, [], ◌∷◌, ◌++◌, ◌&&◌, All, arith, Option-cases, inl,
  inr,
}
use liboctopipes.Types.{ok, Bytes, Heap, require, Error}
use liboctopipes.Types.Always.{Always, Always->>=, Always-if, delivered}
use liboctopipes.Memory.{scan_string}
use liboctopipes.Client.{ReceiveScript}
use liboctopipes.Server.{ServerError, Server, Inbox, Worker, is_running, is_blocked}
use liboctopipes.Server.Directory.{create_clients_dir}
use liboctopipes.Server.Workers.{WorkerScript, start_worker, stop_worker}
use liboctopipes.Server.Dispatch.{
  Sending, Session, Processed, process_first, process_once, process_all,
}
use liboctopipes.Server.Lifecycle.{
  is_created, server_init, StartScript, start_cap_listener, stop_cap_listener,
}
use liboctopipes.Server.CommonPipe.{CapScript}
use liboctopipes.Server.CommonPipe.Process.{CapProcessed, process_cap_once, process_cap_all}
use liboctopipes.Server.Listen.{listen_round, cap_listen, CapRound, cap_round}
use liboctopipes.Server.Sound.{
  IsSound, SoundWorkers, LeavesSound, start_worker-LeavesSound, stop_worker-LeavesSound,
}
use liboctopipes.Server.Sound.Processing.{
  roster, SameRoster, ListensOnly, same_roster-IsSound, roster-inbox, process_first-SameRoster,
  process_once-SameRoster, process_all-SameRoster,
}
use liboctopipes.Server.Sound.CapInbox.{
  ProcessedSound, process_cap_once-ProcessedSound, process_cap_all-ProcessedSound,
}

-- The server with these workers.
abbrev pub with_workers : Server → List Worker → Server
with_workers server workers = record server { workers = some workers }

-- A call on a server that returns, or a round of one of its threads, and the server as it leaves it.
-- Each takes any answers of the system. `hears` is a round of the thread of one worker and `reads_cap`
-- one of the thread of the CAP.
pub data Step (s : Server) : Server → Type 0 where
  starts_listener :
      (script : StartScript) (left : ServerError × Server)
      → start_cap_listener script s ≡ ok left
      → Step s left.1
  stops_listener : (joined : Bool) → Step s (stop_cap_listener joined s).1
  starts_worker :
      (heap : Heap) (grown : Bool) (script : WorkerScript) (client : Bytes) (groups : List Bytes)
      (amount : ℕ) (tx_pipe rx_pipe : Bytes) (left : ServerError × Server)
      → start_worker heap grown script s client groups amount tx_pipe rx_pipe ≡ ok left
      → Step s left.1
  stops_worker :
      (shrunk joined : Bool) (client : Bytes) (left : ServerError × Server)
      → stop_worker shrunk joined s client ≡ ok left
      → Step s left.1
  processes_cap_once :
      (script : CapScript) (done : CapProcessed)
      → process_cap_once script s ≡ ok done
      → Step s done.reply.server
  processes_cap_all :
      (scripts : List CapScript) (done : CapProcessed)
      → process_cap_all scripts s ≡ ok done
      → Step s done.reply.server
  processes_first :
      (answers : ℕ → Sending) (workers : List Worker) (done : Processed)
      → s.workers ≡ some workers
      → process_first answers workers ≡ ok done
      → Step s (with_workers s done.workers)
  processes_once :
      (answers : ℕ → ℕ → Sending) (workers : List Worker) (done : Processed)
      → s.workers ≡ some workers
      → process_once answers workers ≡ ok done
      → Step s (with_workers s done.workers)
  processes_all :
      (sessions : List Session) (workers : List Worker) (done : Processed)
      → All ListensOnly sessions
      → s.workers ≡ some workers
      → process_all sessions workers 0 [] ≡ ok done
      → Step s (with_workers s done.workers)
  hears :
      (before : List Worker) (worker : Worker) (behind : List Worker) (heap : Heap)
      (script : ReceiveScript) (inbox : Inbox)
      → s.workers ≡ some (before ++ worker ∷ behind)
      → listen_round heap script worker.inbox ≡ ok inbox
      → Step s (with_workers s (before ++ record worker { inbox = inbox } ∷ behind))
  reads_cap : (round : CapRound) (left : Server) → cap_round round s ≡ ok left → Step s left

abbrev SameWorkers : Server → Server → Type 0
SameWorkers s t = t.workers ≡ s.workers

start_cap_listener-workers :
    (script : StartScript) (s : Server)
    → Always (λ (left : ServerError × Server). SameWorkers s left.1) (start_cap_listener script s)
unfolding start_cap_listener
start_cap_listener-workers script s =
    let P : ServerError × Server → Type 0 = λ left. SameWorkers s left.1 in
    Always-if P (is_running s.state) _ _ refl (
      Always->>= P (create_clients_dir script.directory) _ λ directory.
        Always-if P directory.0 _ _ (Always-if P (is_created script.pipe) _ _ refl refl) refl)

stop_cap_listener-workers :
    (joined : Bool) (s : Server) → SameWorkers s (stop_cap_listener joined s).1
unfolding stop_cap_listener
stop_cap_listener-workers joined s = ground arith

cap_round-workers : (round : CapRound) (s : Server) → Always (SameWorkers s) (cap_round round s)
unfolding cap_round
cap_round-workers round s =
    Always-if (SameWorkers s) (is_blocked s.state) _ _ refl (elim (Option-cases s.cap_inbox) [
      | inl e ↦ rw e tt
      | inr (inbox, e) ↦ rw e (
          Always->>= (SameWorkers s) (cap_listen s.locked round.heap round.incoming inbox) _
            λ inbox'. refl)
    ])

renamed :
    (s : Server) (workers left : List Worker)
    → SoundWorkers s.workers
    → s.workers ≡ some workers
    → roster left ≡ roster workers
    → IsSound left
renamed s workers left sound known same =
    same_roster-IsSound workers left same (subst SoundWorkers known sound)

Step-SoundWorkers :
    (s : Server) {t : Server} → Step s t → SoundWorkers s.workers → SoundWorkers t.workers
Step-SoundWorkers s (starts_listener script left e) sound =
    subst SoundWorkers
      (sym (
        delivered (λ (l : ServerError × Server). SameWorkers s l.1) _
          (start_cap_listener-workers script s) e))
      sound
Step-SoundWorkers s (stops_listener joined) sound =
    subst SoundWorkers (sym (stop_cap_listener-workers joined s)) sound
Step-SoundWorkers s (starts_worker heap grown script client groups amount tx_pipe rx_pipe left e)
      sound =
    delivered LeavesSound _
      (start_worker-LeavesSound heap grown script s client groups amount tx_pipe rx_pipe sound) e
Step-SoundWorkers s (stops_worker shrunk joined client left e) sound =
    delivered LeavesSound _ (stop_worker-LeavesSound shrunk joined s client sound) e
Step-SoundWorkers s (processes_cap_once script done e) sound =
    delivered ProcessedSound _ (process_cap_once-ProcessedSound script s sound) e
Step-SoundWorkers s (processes_cap_all scripts done e) sound =
    delivered ProcessedSound _ (process_cap_all-ProcessedSound scripts s sound) e
Step-SoundWorkers s (processes_first answers workers done known e) sound =
    renamed s workers done.workers sound known
      (delivered (SameRoster workers) _ (process_first-SameRoster answers workers) e)
Step-SoundWorkers s (processes_once answers workers done known e) sound =
    renamed s workers done.workers sound known
      (delivered (SameRoster workers) _ (process_once-SameRoster answers workers) e)
Step-SoundWorkers s (processes_all sessions workers done only known e) sound =
    renamed s workers done.workers sound known
      (delivered (SameRoster workers) _ (process_all-SameRoster sessions workers 0 [] only) e)
Step-SoundWorkers s (hears before worker behind heap script inbox known e) sound =
    renamed s (before ++ worker ∷ behind) (before ++ record worker { inbox = inbox } ∷ behind) sound
      known (roster-inbox before worker inbox behind)
Step-SoundWorkers s (reads_cap round left e) sound =
    subst SoundWorkers (sym (delivered (SameWorkers s) _ (cap_round-workers round s) e)) sound

-- The servers that calls and rounds lead to.
pub data Reaches (s : Server) : Server → Type 0 where
  at_once : Reaches s s
  after : {t u : Server} → Reaches s t → Step t u → Reaches s u

server_init-SoundWorkers :
    (heap : Heap) (cap_path folder : Bytes) (version : ℕ)
    → Always (λ (s : Server). SoundWorkers s.workers) (server_init heap cap_path folder version)
unfolding server_init
server_init-SoundWorkers heap cap_path folder version =
    let P : Server → Type 0 = λ s. SoundWorkers s.workers in
    Always->>= P (require (heap 0) Error.bad_alloc) _ λ u.
      Always->>= P (scan_string cap_path) _ λ path.
        Always-if P (heap 1) _ _
          (Always->>= P (scan_string folder) _
            λ text. Always-if P (heap 2 && heap 3) _ _ (tt, tt) tt)
          tt

-- From octopipes_server_init on, through any sequence of calls that return and of rounds of the
-- listening threads, and with any answers of the system: no two workers of the server have the same
-- name, and each worker has its own name among its subscriptions, unless a failed reallocation has
-- lost the array of workers.
pub Reaches-SoundWorkers :
    (heap : Heap) (cap_path folder : Bytes) (version : ℕ) (made s : Server)
    → server_init heap cap_path folder version ≡ ok made
    → Reaches made s
    → SoundWorkers s.workers
Reaches-SoundWorkers heap cap_path folder version made s init way = all way
  where
    all : {t : Server} → Reaches made t → SoundWorkers t.workers
    all at_once =
        delivered (λ (m : Server). SoundWorkers m.workers) _
          (server_init-SoundWorkers heap cap_path folder version) init
    all (after {t} way step) = Step-SoundWorkers t step (all way)
