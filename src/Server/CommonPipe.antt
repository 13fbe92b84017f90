-- ===== src/Server/CommonPipe.antt =====
-- The Common Access Pipe: what the server makes of the requests of clients, and its answers.
pub mod Answers
pub mod Process
pub mod Handshake
pub mod Refusals
pub mod Leaving
pub mod Visits
pub mod Requests
mod Tests
use liboctopipes.Prelude.{
  ℕ, ◌+◌, ◌-◌, ◌^◌, Bool, true, false, ◌&&◌, leb, Option, none, some, List, [], ◌∷◌, ◌++◌,
  if◌then◌else◌, length,
}
use liboctopipes.Types.{
  Outcome, ok, fault, handle, overread, dangling, uninitialized_read, ◌>>=◌, Error, Bytes, Heap,
  heap_from, Message, unknown, subscription, assignment, unsubscription, cap_success, cap_fs,
}
use liboctopipes.Memory.{read_bytes, scan_string, same_bytes, terminated, u8}
use liboctopipes.Serializer.{encode}
use liboctopipes.Cap.{get_message, Groups, parse_subscribe, parse_unsubscribe, prepare_assign}
use liboctopipes.Pipes.{pipe_send}
use liboctopipes.Client.{SendScript}
use liboctopipes.Server.{
  ServerError, success, bad_alloc, uninitialized, bad_packet, worker_not_found, is_success,
  to_server_error, Worker, Server, registry, is_running,
}
use liboctopipes.Server.Workers.{WorkerScript, is_worker, start_worker, stop_worker}
use liboctopipes.Server.Lifecycle.{lock_cap, unlock_cap}

-- What a call on the CAP returns, the server as it is left, and the bytes that went into the CAP.
pub record CapReply : Type 0 where
  pub code : ServerError
  pub server : Server
  pub written : Bytes

abbrev pub cap_reply : ServerError → Server → Outcome CapReply
cap_reply code server = ok (record { code = code; server = server; written = [] })

abbrev pub cap_ttl : ℕ
cap_ttl = 5

-- The message of octopipes_server_write_cap.
unfoldable pub cap_message : Server → Bytes → Bytes → Outcome Message
cap_message server client payload = do
  text ← read_bytes (terminated client) 0 (u8 (length client))
  ok (record {
    version = server.version;
    origin_size = 0;
    origin = none;
    remote_size = u8 (length client);
    remote = some (terminated text);
    ttl = cap_ttl;
    data_size = length payload;
    options = 0;
    checksum = 0;
    payload = some payload;
  })

-- octopipes_server_write_cap. Allocation 0 is the message, 1 its data, 2 its remote and 3 the frame.
unfoldable pub write_cap : Heap → SendScript → Server → Bytes → Bytes → Outcome CapReply
write_cap heap out server client payload =
    if is_running server.state
    then (if heap 0 && heap 1 && heap 2
        then (do
          m ← cap_message server client payload
          handle (encode (heap_from 3 heap) m) (λ code. cap_reply (to_server_error code) server)
              (λ frame. do
                sent ← pipe_send out.attempts out.events frame.0 5000
                ok (record {
                  code = to_server_error sent.code;
                  server = unlock_cap (lock_cap server).1;
                  written = sent.written;
                })))
        else cap_reply bad_alloc server)
    else cap_reply uninitialized server

-- `<folder>/<client>_tx.fifo` and `<folder>/<client>_rx.fifo`.
abbrev pub tx_path : (folder client : Bytes) → Bytes
tx_path folder client =
    folder ++ 47 ∷ (client ++ (95 ∷ 116 ∷ 120 ∷ 46 ∷ 102 ∷ 105 ∷ 102 ∷ 111 ∷ []))

abbrev pub rx_path : (folder client : Bytes) → Bytes
rx_path folder client =
    folder ++ 47 ∷ (client ++ (95 ∷ 114 ∷ 120 ∷ 46 ∷ 102 ∷ 105 ∷ 102 ∷ 111 ∷ []))

-- The answers of the system to a subscription: the allocations of each part, the start of the
-- worker, the reallocation of the workers, and the answer on the CAP. `stopping` is for the
-- octopipes_server_stop_worker behind a failure: whether the array shrinks, and the thread is joined.
pub record CapScript : Type 0 where
  pub groups_heap : Heap
  pub paths_heap : Heap
  pub worker_heap : Heap
  pub worker : WorkerScript
  pub grown : Bool
  pub assign_heap : Heap
  pub write_heap : Heap
  pub out : SendScript
  pub stopping : Bool × Bool

-- The answer: an assignment with this error and these two paths.
unfoldable pub answer_client :
    CapScript → Server → Bytes → ℕ → Option Bytes → ℕ → Option Bytes → ℕ → Outcome CapReply
answer_client script server client cap_error tx tx_size rx rx_size = do
  prepared ← prepare_assign script.assign_heap cap_error tx tx_size rx rx_size
  elim prepared [
    | none ↦ do
      left ← stop_worker script.stopping.0 script.stopping.1 server client
      cap_reply bad_alloc left.1
    | some payload ↦ do
      sent ← write_cap script.write_heap script.out server client payload
      if is_success sent.code then ok sent else (do
        left ← stop_worker script.stopping.0 script.stopping.1 sent.server client
        ok (record sent { server = left.1 }))
  ]

-- To a client whose worker was started.
unfoldable pub answer_subscription : CapScript → Server → Bytes → (tx rx : Bytes) → Outcome CapReply
answer_subscription script server client tx rx =
    answer_client script server client cap_success (some (terminated tx)) (length tx)
      (some (terminated rx)) (length rx)

-- What follows a worker that could not be started. If the name was taken the paths are NULL, and
-- their lengths 0 - 1. Otherwise they are freed and not set to NULL, and then read or freed again.
unfoldable pub answer_refusal : CapScript → (taken : Bool) → Server → Bytes → Outcome CapReply
answer_refusal script taken server client =
    if taken
    then answer_client script server client cap_fs none (2 ^ 64 - 1) none (2 ^ 64 - 1)
    else fault dangling

-- The free of the parsed groups, also of those that the parser did not set.
abbrev pub free_groups : Groups → Outcome (Unit {0})
free_groups parsed =
    if leb parsed.amount (length parsed.groups) then ok tt else fault uninitialized_read

-- cap_manage_subscription; `client` is the text of the origin.
unfoldable pub manage_subscription : CapScript → Server → Bytes → Bytes → Outcome CapReply
manage_subscription script server client payload =
    handle (parse_subscribe script.groups_heap payload)
      (λ code. cap_reply (to_server_error code) server)
      (λ groups.
        if script.paths_heap 0 && script.paths_heap 1
        then (do
          workers ← registry server
          let taken = is_worker client workers
          let tx = tx_path server.client_folder client
          let rx = rx_path server.client_folder client
          started ←
              start_worker script.worker_heap script.grown script.worker server client groups.groups
                groups.amount tx rx
          u ← free_groups groups
          if is_success started.0
              then answer_subscription script started.1 client tx rx
              else answer_refusal script taken started.1 client)
        else cap_reply bad_alloc server)

-- The loop of cap_manage_unsubscription, which has no bound: behind the last worker it reads on.
unfoldable pub find_worker : Bytes → List Worker → Outcome (Unit {0})
find_worker client [] = fault overread
find_worker client (worker ∷ workers) = elim (same_bytes worker.client_id client) [
  | true ↦ ok tt
  | false ↦ find_worker client workers
]

-- cap_manage_unsubscription. `stopping` is as in CapScript.
unfoldable pub manage_unsubscription : Bool × Bool → Server → Bytes → Bytes → Outcome CapReply
manage_unsubscription stopping server client payload = elim (parse_unsubscribe payload) [
  | Error.success ↦ do
    workers ← registry server
    elim workers [
      | [] ↦ cap_reply worker_not_found server
      | first ∷ others ↦ do
        u ← find_worker client (first ∷ others)
        left ← stop_worker stopping.0 stopping.1 server client
        cap_reply left.0 left.1
    ]
  | code ↦ cap_reply (to_server_error code) server
]

-- octopipes_server_handle_cap_message.
unfoldable pub handle_cap_message : CapScript → Server → Message → Outcome CapReply
handle_cap_message script server m = elim m.payload [
  | none ↦ cap_reply bad_packet server
  | some payload ↦ elim m.origin [
    | none ↦ cap_reply bad_packet server
    | some origin ↦ elim (get_message payload) [
      | subscription ↦ do
        client ← scan_string origin
        manage_subscription script server client payload
      | unsubscription ↦ do
        client ← scan_string origin
        manage_unsubscription script.stopping server client payload
      | assignment ↦ cap_reply bad_packet server
      | unknown ↦ cap_reply bad_packet server
    ]
  ]
]
