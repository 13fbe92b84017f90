-- ===== src/Client/Alike/Subscribing.antt =====
-- A subscription leaves what a client is.
use liboctopipes.Prelude.{◌≡◌, refl, true, ◌||◌, Option, none, some, List, if◌then◌else◌}
use liboctopipes.Types.{
  success, is_success, Bytes, Heap, heap_from, Message, is_state, subscribed, running,
}
use liboctopipes.Memory.{free_pointer, scan_string, same_bytes, bytes_or_empty}
use liboctopipes.Serializer.{encode, decode}
use liboctopipes.Pipes.{pipe_send, pipe_receive}
use liboctopipes.Client.Requests.{request}
use liboctopipes.Cap.{parse_assign, get_message, prepare_subscription}
use liboctopipes.Client.{Client, SendScript, ReceiveScript, stop_client, reply}
use liboctopipes.Client.Subscribe.{
  drop_pipes, take_assignment, take_answer, await_answer, subscribe_client, subscribe,
  is_assignment, subscribe_payload, subscribe_prepared,
}
use liboctopipes.Types.Always.{
  Always, Always-bind, Always->>=, Always-handle, Always-if, Always-map, if-both,
}
use liboctopipes.Client.Alike.{
  Alike, alike, Alike-refl, Alike-trans, AlikeReply, AlikeSubscribed, stop_client-Alike,
}

drop_pipes-Alike : (c : Client) → Always (Alike c) (drop_pipes c)
unfolding drop_pipes
drop_pipes-Alike c =
    Always-bind (AlikeReply c) (Alike c)
      (if is_state c.state running then stop_client true c else reply success c) _
      (Always-if (AlikeReply c) (is_state c.state running) _ _ (stop_client-Alike true c)
        (Alike-refl c))
      λ r same.
        Always-if (Alike c) (is_state r.client.state subscribed || is_state r.client.state running)
          _ _
          (Always->>= (Alike c) (free_pointer r.client.tx_pipe) _ λ tx.
            Always->>= (Alike c) (free_pointer r.client.rx_pipe) _
              λ rx. alike same.same_id same.same_size same.same_version same.same_path)
          same

take_assignment-Alike :
    (heap : Heap) (c : Client) (payload : Bytes)
    → Always (AlikeSubscribed c) (take_assignment heap c payload)
unfolding take_assignment
take_assignment-Alike heap c payload =
    Always->>= (AlikeSubscribed c) (parse_assign heap payload c.tx_pipe c.rx_pipe) _ λ a.
      if-both (AlikeReply c) (is_success a.code) _ _ (alike refl refl refl refl)
        (alike refl refl refl refl)

take_answer-Alike :
    (heap : Heap) (c : Client) (m : Message) (remote : Option Bytes)
    → m.remote ≡ remote
    → Always (AlikeSubscribed c) (take_answer heap c m)
unfolding take_answer
take_answer-Alike heap c m none h = rw h (Alike-refl c)
take_answer-Alike heap c m (some remote) h = rw h (
    Always->>= (AlikeSubscribed c) (scan_string remote) _ λ name.
      Always->>= (AlikeSubscribed c) (scan_string c.client_id) _ λ id.
        Always-if (AlikeSubscribed c) (same_bytes name id) _ _
          (Always-if (AlikeSubscribed c) (is_assignment (get_message (bytes_or_empty m.payload))) _
            _
            (Always-bind (Alike c) (AlikeSubscribed c) (drop_pipes c) _ (drop_pipes-Alike c)
              λ c' same.
                Always-map (AlikeSubscribed c') (AlikeSubscribed c)
                  (take_assignment heap c' (bytes_or_empty m.payload)) (λ s h. Alike-trans same h)
                  (take_assignment-Alike heap c' (bytes_or_empty m.payload)))
            (Alike-refl c))
          (Alike-refl c))

await_answer-Alike :
    (heap : Heap) (c : Client) (script : ReceiveScript)
    → Always (AlikeSubscribed c) (await_answer heap c script)
unfolding await_answer
await_answer-Alike heap c script =
    Always->>= (AlikeSubscribed c) (pipe_receive script.opened script.events 5000) _ λ got.
      Always-if (AlikeSubscribed c) (is_success got.code) _ _
        (Always-handle (AlikeSubscribed c) (decode heap (bytes_or_empty got.bytes)) _ _
          (λ e. Alike-refl c) (λ m. take_answer-Alike (heap_from 4 heap) c m m.remote refl))
        (Alike-refl c)

subscribe_sent-Alike :
    (heap : Heap) (out : SendScript) (answer : ReceiveScript) (c : Client) (payload : Bytes)
    → Always (AlikeSubscribed c) (subscribe_payload heap out answer c payload)
unfolding subscribe_payload
subscribe_sent-Alike heap out answer c payload =
    Always->>= (AlikeSubscribed c) (request c c.client_id_size payload) _ λ m.
      Always-handle (AlikeSubscribed c) (encode (heap_from 3 heap) m) _ _ (λ e. Alike-refl c)
        λ frame.
          Always->>= (AlikeSubscribed c) (pipe_send out.attempts out.events frame.0 5000) _ λ sent.
            Always-bind (AlikeSubscribed c) (AlikeSubscribed c) _ _
              (Always-if (AlikeSubscribed c) (is_success sent.code) _ _
                (await_answer-Alike (heap_from 4 heap) c answer) (Alike-refl c))
              (λ done same. same)

pub subscribe-Alike :
    (heap : Heap) (out : SendScript) (answer : ReceiveScript) (groups : List Bytes) (c : Client)
    → Always (AlikeSubscribed c) (subscribe heap out answer groups (some c))
unfolding subscribe subscribe_client
subscribe-Alike heap out answer groups c =
    Always-if (AlikeSubscribed c) (heap 0) _ _
      (Always-if (AlikeSubscribed c) (heap 1) _ _
        (Always->>= (AlikeSubscribed c) (prepare_subscription (heap_from 2 heap) groups) _ prepared)
        (Alike-refl c))
      (Alike-refl c)
  where
    prepared :
        (p : Option Bytes) → Always (AlikeSubscribed c) (subscribe_prepared heap out answer c p)
    prepared none = Alike-refl c
    prepared (some payload) = subscribe_sent-Alike heap out answer c payload
