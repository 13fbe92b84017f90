-- ===== src/Client/Loop.antt =====
-- octopipes_loop, the thread that receives messages.
pub mod Batches
pub mod Messages
use liboctopipes.Prelude.{
  Bool, true, false, Option, none, some, List, [], ◌∷◌, ◌++◌, bit_and, ◌==◌, if◌then◌else◌,
}
use liboctopipes.Types.{
  Outcome, ok, pending, ◌>>=◌, ◌>>◌, handle, is_success, Error, success, no_data_available,
  require_ack, ack, Bytes, Heap, heap_from, Message, State, running, is_state,
}
use liboctopipes.Memory.{usable, bytes_or_empty}
use liboctopipes.Serializer.{decode}
use liboctopipes.Pipes.{pipe_receive}
use liboctopipes.Client.{
  Client, Callback, received_message, receive_error, Reply, when, SendScript, ReceiveScript,
}
use liboctopipes.Client.Send.{send_ex}

-- What happens in one round of the loop: the answers of the system, and the state that another
-- thread sets meanwhile, if it sets one.
pub record LoopRound : Type 0 where
  pub heap : Heap
  pub incoming : ReceiveScript
  pub outgoing : SendScript
  pub state_change : Option State

-- The callbacks of a round, and the bytes of the acknowledgement that it sent.
pub record RoundResult : Type 0 where
  pub calls : List Callback
  pub acknowledged : Bytes

-- A message was decoded: it is reported, and acknowledged to its origin where it asks for that.
-- Allocations 4 and on are those of the acknowledgement.
unfoldable pub take_message : LoopRound → Client → Message → Outcome RoundResult
take_message round c m =
    if bit_and m.options require_ack == 0
    then ok (record { calls = when c.on_received (received_message m); acknowledged = [] })
    else (do
      sent ← send_ex (heap_from 4 round.heap) round.outgoing m.origin none 0 255 ack (some c)
      ok (record {
        calls = when c.on_received (received_message m) ++ sent.reply.calls;
        acknowledged = sent.written;
      }))

abbrev pub round_error : Client → Error → Outcome RoundResult
round_error c code =
    ok (record { calls = when c.on_receive_error (receive_error code); acknowledged = [] })

abbrev is_no_data : Error → Bool
is_no_data no_data_available = true
is_no_data _ = false

-- The body of the loop.
unfoldable pub loop_body : LoopRound → Client → Outcome RoundResult
loop_body round c = do
  usable c.rx_pipe
  got ← pipe_receive round.incoming.opened round.incoming.events 500
  if is_success got.code
      then handle (decode round.heap (bytes_or_empty got.bytes)) (round_error c)
          (take_message round c)
      else (if is_no_data got.code
          then ok (record { calls = []; acknowledged = [] })
          else round_error c got.code)

abbrev pub changed : Option State → Client → Client
changed none c = c
changed (some state) c = record c { state = state }

-- The `while`: a list of rounds that ends while the state is RUNNING leaves the thread waiting.
unfoldable pub loop_rounds : List LoopRound → Client → List Callback → Outcome Reply
loop_rounds [] c calls =
    if is_state c.state running
    then pending
    else ok (record { code = success; client = c; calls = calls })
loop_rounds (round ∷ rounds) c calls =
    if is_state c.state running
    then (do
      result ← loop_body round c
      loop_rounds rounds (changed round.state_change c) (calls ++ result.calls))
    else ok (record { code = success; client = c; calls = calls })

-- octopipes_loop.
unfoldable pub loop : List LoopRound → Client → Outcome Reply
loop rounds c = loop_rounds rounds (record c { state = running }) []
