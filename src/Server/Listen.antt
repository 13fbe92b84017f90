-- ===== src/Server/Listen.antt =====
-- cap_loop and worker_loop, the threads that fill the inboxes.
pub mod Forward
pub mod Collect
mod Tests
use liboctopipes.Prelude.{
  Bool, true, false, not, ◌&&◌, Option, none, some, List, [], ◌∷◌, if◌then◌else◌,
}
use liboctopipes.Types.{
  Outcome, ok, fault, null_dereference, handle, pending, ◌>>=◌, Error, is_success, Heap, heap_from,
  Bytes,
}
use liboctopipes.Memory.{bytes_or_empty}
use liboctopipes.Serializer.{decode}
use liboctopipes.Pipes.{pipe_receive}
use liboctopipes.Client.{ReceiveScript}
use liboctopipes.Server.{
  ServerError, to_server_error, Letter, no_letter, dangling_letter, letter, Inbox, ServerState,
  stopped, is_blocked, Worker, Server,
}
use liboctopipes.Server.Inbox.{message_inbox_push}

-- The pointer to the message after octopipes_decode failed: it is NULL if the message could not be
-- allocated, and otherwise points at the message that was freed.
abbrev pub failed_letter : Heap → Letter
failed_letter heap = if heap 0 then dangling_letter else no_letter

-- The entry for data that came in: the decoded message, or what is left of it, with the error.
unfoldable pub push_decoded : Heap → Inbox → Bytes → Outcome Inbox
push_decoded heap inbox bytes =
    handle (decode heap bytes)
      (λ code.
        ok
          (message_inbox_push (heap_from 4 heap) inbox (failed_letter heap)
            (to_server_error code)).inbox)
      (λ m. ok (message_inbox_push (heap_from 4 heap) inbox (letter m) ServerError.success).inbox)

abbrev is_no_data : Error → Bool
is_no_data Error.no_data_available = true
is_no_data _ = false

-- The body of worker_loop. Allocations 0 to 3 are decode's, or else 0 and 1 those of the push.
unfoldable pub listen_round : Heap → ReceiveScript → Inbox → Outcome Inbox
listen_round heap script inbox = do
  got ← pipe_receive script.opened script.events 200
  if is_success got.code
      then push_decoded heap inbox (bytes_or_empty got.bytes)
      else (if is_no_data got.code
          then ok inbox
          else ok (message_inbox_push heap inbox no_letter (to_server_error got.code)).inbox)

-- A round of worker_loop, and whether another thread has set `active` to 0 when it ends.
pub record WorkerRound : Type 0 where
  pub heap : Heap
  pub incoming : ReceiveScript
  pub ends : Bool

-- worker_loop; a list of rounds that ends while the worker is active leaves the thread waiting.
unfoldable pub worker_loop : List WorkerRound → Worker → Outcome Worker
worker_loop [] worker = if worker.active then pending else ok worker
worker_loop (round ∷ rounds) worker = elim worker.active [
  | false ↦ ok worker
  | true ↦ do
    inbox ← listen_round round.heap round.incoming worker.inbox
    worker_loop rounds
        (record worker { inbox = inbox; active = (if round.ends then false else true) })
]

-- A push that cap_loop makes: it locks the mutex first, and waits where another thread holds it.
unfoldable pub cap_push : (locked : Bool) → Heap → Inbox → Letter → ServerError → Outcome Inbox
cap_push locked heap inbox message error =
    if locked then pending else ok (message_inbox_push heap inbox message error).inbox

-- The body of cap_loop behind the wait, with the same allocations.
unfoldable pub cap_listen : (locked : Bool) → Heap → ReceiveScript → Inbox → Outcome Inbox
cap_listen locked heap script inbox = do
  got ← pipe_receive script.opened script.events 200
  if is_success got.code
      then handle (decode heap (bytes_or_empty got.bytes))
          (λ code.
            cap_push locked (heap_from 4 heap) inbox (failed_letter heap) (to_server_error code))
          (λ m. cap_push locked (heap_from 4 heap) inbox (letter m) ServerError.success)
      else (if is_no_data got.code
          then ok inbox
          else cap_push locked heap inbox no_letter (to_server_error got.code))

-- A step of cap_loop: what the pipe answers where it is read, and the state that another thread sets.
pub record CapRound : Type 0 where
  pub heap : Heap
  pub incoming : ReceiveScript
  pub state_change : Option ServerState

abbrev is_stopped : ServerState → Bool
is_stopped stopped = true
is_stopped _ = false

abbrev pub changed : Option ServerState → Server → Server
changed none server = server
changed (some state) server = record server { state = state }

-- The work of a step: nothing while the state is BLOCK, and otherwise a read of the CAP.
unfoldable pub cap_round : CapRound → Server → Outcome Server
cap_round round server = if is_blocked server.state then ok server else elim server.cap_inbox [
  | none ↦ fault null_dereference
  | some inbox ↦ do
    inbox' ← cap_listen server.locked round.heap round.incoming inbox
    ok (record server { cap_inbox = some inbox' })
]

-- The loops of cap_loop. While the inner one waits for the end of the BLOCK the state is not compared
-- with STOPPED, so the CAP is read once more behind it.
unfoldable pub cap_rounds : (waiting : Bool) → List CapRound → Server → Outcome Server
cap_rounds waiting [] server = if not waiting && is_stopped server.state then ok server else pending
cap_rounds waiting (round ∷ rounds) server = elim (not waiting && is_stopped server.state) [
  | true ↦ ok server
  | false ↦ do
    server' ← cap_round round server
    cap_rounds (is_blocked server.state) rounds (changed round.state_change server')
]

-- cap_loop.
unfoldable pub cap_loop : List CapRound → Server → Outcome Server
cap_loop rounds server = cap_rounds false rounds server
