-- ===== src/Client/Unsubscribe.antt =====
-- octopipes_unsubscribe, and octopipes_cleanup, which unsubscribes first.
pub mod Leaving
use liboctopipes.Prelude.{true, ◌||◌, Option, none, some, if◌then◌else◌}
use liboctopipes.Types.{
  Bytes, Outcome, ok, err, uninitialized, fault, null_dereference, ◌>>=◌, handle, is_success, Error,
  success, bad_alloc, not_subscribed, Heap, heap_from, subscribed, running, unsubscribed, is_state,
}
use liboctopipes.Memory.{free_pointer, u8}
use liboctopipes.Serializer.{encode}
use liboctopipes.Cap.{prepare_unsubscription}
use liboctopipes.Pipes.{pipe_send}
use liboctopipes.Client.{Client, Reply, reply, when, was_unsubscribed, SendScript, stop_client}
use liboctopipes.Client.Send.{Transmission, unsent}
use liboctopipes.Client.Requests.{request}

-- From `Stop loop` on. octopipes_loop_stop is called before the state is changed; the callback too.
unfoldable pub leave : Client → Outcome Reply
leave c = do
  stopped ← stop_client true c
  let c = stopped.client
  ok (record {
    code = success;
    client = record c { state = unsubscribed };
    calls = when c.on_unsubscribed was_unsubscribed;
  })

-- From `Encode message` on, with the payload of octopipes_cap_prepare_unsubscription, or NULL.
-- Allocation 3 is the frame.
unfoldable pub unsubscribe_prepared :
    Heap → SendScript → Client → Option Bytes → Outcome Transmission
unsubscribe_prepared heap out c none = unsent bad_alloc c
unsubscribe_prepared heap out c (some payload) = do
  m ← request c (u8 c.client_id_size) payload
  handle (encode (heap_from 3 heap) m) (λ code. unsent code c)
      λ frame. do
        sent ← pipe_send out.attempts out.events frame.0 5000
        left ← (if is_success sent.code then leave c else reply sent.code c)
        ok (record { reply = left; written = sent.written })

-- Allocation 0 is the message, 1 its origin and 2 its payload. The message is written to before it is
-- compared with NULL.
unfoldable pub unsubscribe_client : Heap → SendScript → Client → Outcome Transmission
unsubscribe_client heap out c =
    if is_state c.state subscribed || is_state c.state running
    then (if heap 0
        then (if heap 1
            then unsubscribe_prepared heap out c (prepare_unsubscription (heap_from 2 heap))
            else unsent bad_alloc c)
        else fault null_dereference)
    else unsent not_subscribed c

-- octopipes_unsubscribe, with the bytes that went into the Common Access Pipe.
unfoldable pub unsubscribe : Heap → SendScript → Option Client → Outcome Transmission
unsubscribe heap out none = err uninitialized
unsubscribe heap out (some c) = unsubscribe_client heap out c

-- octopipes_cleanup. The two pipes are freed as they are left by the calls before.
unfoldable pub cleanup : Heap → SendScript → Option Client → Outcome Error
cleanup heap out none = ok success
cleanup heap out (some c) = do
  left ←
      (if is_state c.state subscribed || is_state c.state running
        then (do t ← unsubscribe heap out (some c); ok t.reply)
        else reply success c)
  _ ← free_pointer left.client.rx_pipe
  _ ← free_pointer left.client.tx_pipe
  ok success
