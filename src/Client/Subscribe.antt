-- ===== src/Client/Subscribe.antt =====
-- octopipes_subscribe.
pub mod Assigned
use liboctopipes.Prelude.{ℕ, Bool, true, false, ◌||◌, Option, none, some, List, [], if◌then◌else◌}
use liboctopipes.Types.{
  Outcome, ok, err, ◌>>=◌, handle, is_success, Error, success, bad_packet, bad_alloc, Bytes, Heap,
  heap_from, Message, CapMessage, assignment, subscribed, running, is_state,
}
use liboctopipes.Memory.{scan_string, free_pointer, same_bytes, bytes_or_empty}
use liboctopipes.Serializer.{encode, decode}
use liboctopipes.Cap.{prepare_subscription, get_message, parse_assign}
use liboctopipes.Pipes.{pipe_send, pipe_receive}
use liboctopipes.Client.{
  Client, was_subscribed, Reply, reply, when, SendScript, ReceiveScript, stop_client,
}
use liboctopipes.Client.Requests.{request}

-- The reply of octopipes_subscribe, with the assignment error where it was written, and the bytes that
-- went into the Common Access Pipe.
pub record Subscribed : Type 0 where
  pub reply : Reply
  pub assignment_error : Option ℕ
  pub written : Bytes

abbrev pub fails : Client → Error → Outcome Subscribed
fails c code = ok (record {
  reply = record { code = code; client = c; calls = [] };
  assignment_error = none;
  written = [];
})

-- `Stop running thread and free previous pipe`. The loop is running, so octopipes_loop_stop refuses.
unfoldable pub drop_pipes : Client → Outcome Client
drop_pipes c = do
  stopped ← (if is_state c.state running then stop_client true c else reply success c)
  let c = stopped.client
  if is_state c.state subscribed || is_state c.state running
      then (do
        tx ← free_pointer c.tx_pipe
        rx ← free_pointer c.rx_pipe
        ok (record c { tx_pipe = tx; rx_pipe = rx }))
      else ok c

-- From `Parse assignment` on. Allocations 0 and 1 are the two paths.
unfoldable pub take_assignment : Heap → Client → Bytes → Outcome Subscribed
take_assignment heap c payload = do
  a ← parse_assign heap payload c.tx_pipe c.rx_pipe
  let c = record c { tx_pipe = a.tx; rx_pipe = a.rx }
  ok (record {
    reply =
        (if is_success a.code
          then record {
            code = a.code;
            client = record c { state = subscribed };
            calls = when c.on_subscribed was_subscribed;
          }
          else record { code = a.code; client = c; calls = [] });
    assignment_error = a.cap_error;
    written = [];
  })

abbrev pub is_assignment : CapMessage → Bool
is_assignment assignment = true
is_assignment _ = false

-- The checks of the answer: the remote is the client, and the payload an assignment.
unfoldable pub take_answer : Heap → Client → Message → Outcome Subscribed
take_answer heap c m = elim m.remote [
  | none ↦ fails c bad_packet
  | some remote ↦ do
    name ← scan_string remote
    id ← scan_string c.client_id
    if same_bytes name id
        then (if is_assignment (get_message (bytes_or_empty m.payload))
            then (do c' ← drop_pipes c; take_assignment heap c' (bytes_or_empty m.payload))
            else fails c bad_packet)
        else fails c bad_packet
]

-- From the wait for the assignment on. Allocations 0 to 3 are decode's.
unfoldable pub await_answer : Heap → Client → ReceiveScript → Outcome Subscribed
await_answer heap c script = do
  got ← pipe_receive script.opened script.events 5000
  if is_success got.code
      then handle (decode heap (bytes_or_empty got.bytes)) (fails c)
          (take_answer (heap_from 4 heap) c)
      else fails c got.code

-- From `Encode message` on. Allocation 3 is the frame; what follows is for the answer.
unfoldable pub subscribe_payload :
    Heap → SendScript → ReceiveScript → Client → Bytes → Outcome Subscribed
subscribe_payload heap out answer c payload = do
  m ← request c c.client_id_size payload
  handle (encode (heap_from 3 heap) m) (fails c) λ frame. do
    sent ← pipe_send out.attempts out.events frame.0 5000
    done ←
        (if is_success sent.code
          then await_answer (heap_from 4 heap) c answer
          else fails c sent.code)
    ok (record done { written = sent.written })

-- The payload that octopipes_cap_prepare_subscription returned, or NULL.
abbrev pub subscribe_prepared :
    Heap → SendScript → ReceiveScript → Client → Option Bytes → Outcome Subscribed
subscribe_prepared heap out answer c none = fails c bad_alloc
subscribe_prepared heap out answer c (some payload) = subscribe_payload heap out answer c payload

-- Allocation 0 is the message, 1 its origin and 2 its payload.
unfoldable pub subscribe_client :
    Heap → SendScript → ReceiveScript → List Bytes → Client → Outcome Subscribed
subscribe_client heap out answer groups c =
    if heap 0
    then (if heap 1
        then (do
          prepared ← prepare_subscription (heap_from 2 heap) groups
          subscribe_prepared heap out answer c prepared)
        else fails c bad_alloc)
    else fails c bad_alloc

-- octopipes_subscribe.
unfoldable pub subscribe :
    Heap → SendScript → ReceiveScript → List Bytes → Option Client → Outcome Subscribed
subscribe heap out answer groups none = err Error.uninitialized
subscribe heap out answer groups (some c) = subscribe_client heap out answer groups c
