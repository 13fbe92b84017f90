-- ===== src/Server/Workers.antt =====
-- The workers: worker_init, worker_cleanup, and the registry of the server.
pub mod Registry
use liboctopipes.Prelude.{
  ℕ, zero, suc, ◌+◌, ◌*◌, Bool, true, false, not, Option, none, some, List, [], ◌∷◌, ◌++◌, map,
  ◌&&◌, leb, if◌then◌else◌, length,
}
use liboctopipes.Types.{
  Outcome, ok, handle, uninitialized_read, require, fault, null_dereference, ◌>>=◌, ◌>>◌, Error,
  Bytes, Heap, Message,
}
use liboctopipes.Memory.{same_bytes, scan_string}
use liboctopipes.Pipes.{FileAnswer, pipe_create, pipe_send}
use liboctopipes.Serializer.{encode}
use liboctopipes.Client.{SendScript}
use liboctopipes.Server.{
  ServerError, success, bad_alloc, open_failed, thread_error, worker_exists, worker_not_found,
  is_success, to_server_error, Worker, Server, registry, lost,
}
use liboctopipes.Server.Inbox.{message_inbox_expunge}

-- `strcmp` in a list of subscriptions.
abbrev pub listed : Bytes → List Bytes → Bool
listed remote [] = false
listed remote (group ∷ groups) = if same_bytes group remote then true else listed remote groups

-- worker_match_subscription.
unfoldable pub worker_match_subscription : Worker → Bytes → Bool
worker_match_subscription worker remote = listed remote worker.subscriptions_list

-- What a worker_send returns, with the message as encode leaves it and the bytes that were written.
pub record Forwarded : Type 0 where
  pub code : ServerError
  pub message : Message
  pub written : Bytes

-- worker_send; allocation 0 is the frame.
unfoldable pub worker_send : Heap → SendScript → Message → Outcome Forwarded
worker_send heap out m =
    handle (encode heap m)
      (λ code. ok (record { code = to_server_error code; message = m; written = [] }))
      λ frame. do
        sent ← pipe_send out.attempts out.events frame.0 (m.ttl * 1000)
        ok (record { code = to_server_error sent.code; message = frame.1; written = sent.written })

-- octopipes_server_is_subscribed.
abbrev pub is_worker : Bytes → List Worker → Bool
is_worker client [] = false
is_worker client (worker ∷ workers) =
    if same_bytes worker.client_id client then true else is_worker client workers

unfoldable pub is_subscribed : List Worker → Bytes → ServerError
is_subscribed workers client = if is_worker client workers then success else worker_not_found

-- octopipes_server_get_subscriptions, with worker_get_subscriptions. Allocation 0 is the array.
unfoldable pub get_subscriptions : Heap → List Worker → Bytes → ServerError × List Bytes
get_subscriptions heap [] client = (worker_not_found, [])
get_subscriptions heap (worker ∷ workers) client =
    let rest = get_subscriptions heap workers client in
    if same_bytes worker.client_id client
    then (if heap 0 then (success, worker.subscriptions_list) else (bad_alloc, []))
    else rest

-- octopipes_server_get_clients. Without workers `clients` is not set.
unfoldable pub get_clients : Heap → List Worker → ServerError × Option (List Bytes)
get_clients heap [] = (success, none)
get_clients heap (worker ∷ workers) =
    if heap 0
    then (success, some (worker.client_id ∷ map (λ w. w.client_id) workers))
    else (bad_alloc, none)

-- The answers of the system to a worker_init: `mkfifo` for the two pipes, `pthread_mutex_init` and
-- `pthread_create`.
pub record WorkerScript : Type 0 where
  pub read_made : FileAnswer
  pub write_made : FileAnswer
  pub mutex : Bool
  pub thread : Bool

abbrev pub is_created : FileAnswer → Bool
is_created answer = elim (pipe_create answer) [ Error.success ↦ true | _ ↦ false ]

-- The copies of the subscriptions, from allocation k on. A pointer that was never set is read.
unfoldable pub copy_subscriptions : Heap → ℕ → ℕ → List Bytes → Outcome (List Bytes)
copy_subscriptions heap k zero groups = ok []
copy_subscriptions heap k (suc left) [] = fault uninitialized_read
copy_subscriptions heap k (suc left) (group ∷ groups) = do
  text ← scan_string group
  require (heap k) Error.bad_alloc
  rest ← copy_subscriptions heap (suc k) left groups
  ok (text ∷ rest)

-- What a worker_init returns; the worker is set where it succeeds.
pub record Started : Type 0 where
  pub code : ServerError
  pub worker : Option Worker

abbrev refused : ServerError → Outcome Started
refused code = ok (record { code = code; worker = none })

-- A worker as it starts. Its own id comes last in its subscriptions.
abbrev pub worker_of : Bytes → List Bytes → (pipe_read pipe_write : Bytes) → Worker
worker_of client_id groups pipe_read pipe_write = record {
  client_id = client_id;
  subscriptions_list = groups ++ client_id ∷ [];
  pipe_read = pipe_read;
  pipe_write = pipe_write;
  active = true;
  inbox = some [];
}

-- The part behind the two pipes. Allocation 0 is the worker, 1 its inbox, 2 its id, 3 and 4 the
-- paths, 5 the list of subscriptions, 6 and on the subscriptions, and the last one, which is not
-- checked, the id among them.
unfoldable pub fill_worker :
    Heap → WorkerScript → List Bytes → ℕ → Bytes → Bytes → Bytes → Outcome Started
fill_worker heap script groups amount client_id pipe_read pipe_write =
    if heap 0 && heap 1 && heap 2 && heap 3 && heap 4 && heap 5
    then handle (copy_subscriptions heap 6 amount groups) (λ code. refused (to_server_error code))
        (λ texts.
          if heap (6 + amount)
          then (if script.mutex && script.thread
              then ok (record {
                code = success;
                worker = some (worker_of client_id texts pipe_read pipe_write);
              })
              else refused thread_error)
          else fault null_dereference)
    else refused bad_alloc

-- worker_init, of which `groups` are the `amount` subscriptions.
unfoldable pub worker_init :
    Heap → WorkerScript → List Bytes → ℕ → Bytes → Bytes → Bytes → Outcome Started
worker_init heap script groups amount client_id pipe_read pipe_write =
    if is_created script.read_made && is_created script.write_made
    then fill_worker heap script groups amount client_id pipe_read pipe_write
    else refused open_failed

-- octopipes_server_start_worker. `grown` says whether the array of workers could be reallocated.
unfoldable pub start_worker :
    Heap
    → Bool
    → WorkerScript
    → Server
    → Bytes
    → List Bytes
    → ℕ
    → Bytes
    → Bytes
    → Outcome (ServerError × Server)
start_worker heap grown script server client groups amount tx_pipe rx_pipe = do
  workers ← registry server
  if is_success (is_subscribed workers client) then ok (worker_exists, server) else (do
    started ← worker_init heap script groups amount client tx_pipe rx_pipe
    elim started.worker [
      | none ↦ ok (started.code, server)
      | some worker ↦
          if grown
          then ok (success, record server { workers = some (workers ++ worker ∷ []) })
          else ok (bad_alloc, record server { workers = lost workers })
    ])

-- worker_cleanup, with the worker as a failed `pthread_join` leaves it; `joined` says whether it
-- returned 0.
unfoldable pub worker_cleanup : Bool → Worker → Outcome (ServerError × Worker)
worker_cleanup joined worker =
    if worker.active && not joined
    then ok (thread_error, record worker { active = false })
    else (do u ← message_inbox_expunge worker.inbox; ok (success, record worker { active = false }))

-- The loop of octopipes_server_stop_worker: the code, and the workers that are left.
unfoldable pub stop_among : Bool → Bytes → List Worker → Outcome (ServerError × List Worker)
stop_among joined client [] = ok (worker_not_found, [])
stop_among joined client (worker ∷ workers) = elim (same_bytes worker.client_id client) [
  | true ↦ do
    cleaned ← worker_cleanup joined worker
    if is_success cleaned.0 then ok (success, workers) else ok (cleaned.0, cleaned.1 ∷ workers)
  | false ↦ do rest ← stop_among joined client workers; ok (rest.0, worker ∷ rest.1)
]

-- octopipes_server_stop_worker. `shrunk` says whether the array of workers could be reallocated.
unfoldable pub stop_worker :
    (shrunk joined : Bool) → Server → Bytes → Outcome (ServerError × Server)
stop_worker shrunk joined server client = do
  workers ← registry server
  left ← stop_among joined client workers
  if is_success left.0 && not shrunk
      then ok (
        (if leb 1 (length left.1) then bad_alloc else success),
        record server { workers = lost left.1 },
      )
      else ok (left.0, record server { workers = some left.1 })
