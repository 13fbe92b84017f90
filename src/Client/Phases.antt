-- ===== src/Client/Phases.antt =====
-- How the calls move a client from one state to another.
use liboctopipes.Prelude.{
  ◌≡◌, refl, sym, Bool, true, false, ◌||◌, Option, none, some, List, [], ◌∷◌, ◌++◌, ◌⊎◌, inl, inr,
}
use liboctopipes.Types.{
  is_success, Bytes, Heap, heap_from, Message, State, is_state, subscribed, running, unsubscribed,
  stopped,
}
use liboctopipes.Types.Always.{
  Always, Always-bind, Always->>=, Always-handle, Always-if, Always-if_known, if-both_known,
}
use liboctopipes.Memory.{u8, free_pointer, scan_string, same_bytes, bytes_or_empty}
use liboctopipes.Serializer.{encode, decode}
use liboctopipes.Pipes.{pipe_send, pipe_receive}
use liboctopipes.Cap.{parse_assign, get_message, prepare_subscription, prepare_unsubscription}
use liboctopipes.Client.{
  Client, Callback, Reply, SendScript, ReceiveScript, loop_start, loop_stop, stop_client,
}
use liboctopipes.Client.Requests.{request}
use liboctopipes.Client.Subscribe.{
  Subscribed, drop_pipes, take_assignment, take_answer, await_answer, subscribe_client, subscribe,
  is_assignment, subscribe_payload, subscribe_prepared,
}
use liboctopipes.Client.Unsubscribe.{leave, unsubscribe_client, unsubscribe_prepared, unsubscribe}
use liboctopipes.Client.Send.{Transmission}
use liboctopipes.Client.Loop.{LoopRound, changed, loop_body, loop_rounds, loop}

-- A call leaves the state of the client alone, or returns SUCCESS and moves it from a state that it
-- allows to this one.
abbrev pub Moves : (State → Bool) → Client → State → Reply → Type 0
Moves allows c target r =
    (r.client.state ≡ c.state)
    ⊎ ((allows c.state ≡ true) × (is_success r.code ≡ true) × (r.client.state ≡ target))

abbrev pub any_state : State → Bool
any_state s = true

abbrev pub is_connected : State → Bool
is_connected s = is_state s subscribed || is_state s running

abbrev pub is_unsubscribed : State → Bool
is_unsubscribed s = is_state s unsubscribed

is_unsubscribed→eq : (s : State) → is_state s unsubscribed ≡ true → s ≡ unsubscribed
is_unsubscribed→eq State.init h = cc
is_unsubscribed→eq State.subscribed h = cc
is_unsubscribed→eq State.running h = cc
is_unsubscribed→eq State.unsubscribed h = refl
is_unsubscribed→eq State.stopped h = cc

running_not_unsubscribed : (s : State) → is_state s running ≡ true → is_state s unsubscribed ≡ false
running_not_unsubscribed State.init h = refl
running_not_unsubscribed State.subscribed h = refl
running_not_unsubscribed State.running h = refl
running_not_unsubscribed State.unsubscribed h = cc
running_not_unsubscribed State.stopped h = refl

stop_client-Moves :
    (joined : Bool) (c : Client) → Always (Moves is_unsubscribed c stopped) (stop_client joined c)
unfolding stop_client
stop_client-Moves joined c =
    let P : Reply → Type 0 = Moves is_unsubscribed c stopped in
    Always-if_known P (is_state c.state unsubscribed) _ _
      (λ there.
        Always-if P c.thread_alive _ _
          (Always-if P joined _ _ (inr (there, refl, refl))
            (inl (sym (is_unsubscribed→eq c.state there))))
          tt)
      (λ other. inl refl)

abbrev SameState : Client → Client → Type 0
SameState c d = d.state ≡ c.state

-- A client that is RUNNING is not UNSUBSCRIBED.
drop_pipes-SameState : (c : Client) → Always (SameState c) (drop_pipes c)
unfolding drop_pipes stop_client
drop_pipes-SameState c =
    Always-bind (λ (r : Reply). SameState c r.client) (SameState c) _ _
      (Always-if_known (λ (r : Reply). SameState c r.client) (is_state c.state running) _ _
        (λ runs. rw (running_not_unsubscribed c.state runs) refl) (λ other. refl))
      λ r same.
        Always-if (SameState c)
          (is_state r.client.state subscribed || is_state r.client.state running) _ _
          (Always->>= (SameState c) (free_pointer r.client.tx_pipe) _
            λ tx. Always->>= (SameState c) (free_pointer r.client.rx_pipe) _ λ rx. same)
          same

abbrev MovesSubscribed : Client → Subscribed → Type 0
MovesSubscribed c s = Moves any_state c subscribed s.reply

take_assignment-Moves :
    (heap : Heap) (c d : Client) (payload : Bytes)
    → SameState c d
    → Always (MovesSubscribed c) (take_assignment heap d payload)
unfolding take_assignment
take_assignment-Moves heap c d payload same =
    Always->>= (MovesSubscribed c) (parse_assign heap payload d.tx_pipe d.rx_pipe) _ λ a.
      if-both_known (Moves any_state c subscribed) (is_success a.code) _ _
        (λ fine. inr (refl, fine, refl)) (λ fails. inl same)

take_answer-Moves :
    (heap : Heap) (c : Client) (m : Message) (remote : Option Bytes)
    → m.remote ≡ remote
    → Always (MovesSubscribed c) (take_answer heap c m)
unfolding take_answer
take_answer-Moves heap c m none h = rw h (inl refl)
take_answer-Moves heap c m (some remote) h = rw h (
    let P : Subscribed → Type 0 = MovesSubscribed c in
    Always->>= P (scan_string remote) _ λ name. Always->>= P (scan_string c.client_id) _ λ id.
      Always-if P (same_bytes name id) _ _
        (Always-if P (is_assignment (get_message (bytes_or_empty m.payload))) _ _
          (Always-bind (SameState c) P (drop_pipes c) _ (drop_pipes-SameState c)
            (λ d same. take_assignment-Moves heap c d (bytes_or_empty m.payload) same))
          (inl refl))
        (inl refl))

subscribe_payload-Moves :
    (heap : Heap) (out : SendScript) (answer : ReceiveScript) (c : Client) (payload : Bytes)
    → Always (MovesSubscribed c) (subscribe_payload heap out answer c payload)
unfolding subscribe_payload await_answer
subscribe_payload-Moves heap out answer c payload =
    let P : Subscribed → Type 0 = MovesSubscribed c in
    Always->>= P (request c c.client_id_size payload) _ λ m.
      Always-handle P (encode (heap_from 3 heap) m) _ _ (λ e. inl refl)
        λ frame. Always->>= P (pipe_send out.attempts out.events frame.0 5000) _ λ sent.
          Always-bind P P _ _
            (Always-if P (is_success sent.code) _ _
              (Always->>= P (pipe_receive answer.opened answer.events 5000) _ λ got.
                Always-if P (is_success got.code) _ _
                  (Always-handle P (decode (heap_from 4 heap) (bytes_or_empty got.bytes)) _ _
                    (λ e. inl refl)
                    (λ m. take_answer-Moves (heap_from 4 (heap_from 4 heap)) c m m.remote refl))
                  (inl refl))
              (inl refl))
            (λ done moves. moves)

subscribe-Moves :
    (heap : Heap) (out : SendScript) (answer : ReceiveScript) (groups : List Bytes) (c : Client)
    → Always (MovesSubscribed c) (subscribe heap out answer groups (some c))
unfolding subscribe subscribe_client
subscribe-Moves heap out answer groups c =
    let P : Subscribed → Type 0 = MovesSubscribed c in
    Always-if P (heap 0) _ _
      (Always-if P (heap 1) _ _
        (Always->>= P (prepare_subscription (heap_from 2 heap) groups) _ prepared) (inl refl))
      (inl refl)
  where
    prepared :
        (p : Option Bytes) → Always (MovesSubscribed c) (subscribe_prepared heap out answer c p)
    prepared none = inl refl
    prepared (some payload) = subscribe_payload-Moves heap out answer c payload

abbrev MovesTransmission : Client → Transmission → Type 0
MovesTransmission c t = Moves is_connected c unsubscribed t.reply

unsubscribe_prepared-Moves :
    (heap : Heap) (out : SendScript) (c : Client) (payload : Option Bytes)
    → is_connected c.state ≡ true
    → Always (MovesTransmission c) (unsubscribe_prepared heap out c payload)
unfolding unsubscribe_prepared leave
unsubscribe_prepared-Moves heap out c none connected = inl refl
unsubscribe_prepared-Moves heap out c (some payload) connected =
    let P : Transmission → Type 0 = MovesTransmission c in
    Always->>= P (request c (u8 c.client_id_size) payload) _ λ m.
      Always-handle P (encode (heap_from 3 heap) m) _ _ (λ e. inl refl)
        λ frame. Always->>= P (pipe_send out.attempts out.events frame.0 5000) _ λ sent.
          Always-bind (Moves is_connected c unsubscribed) P _ _
            (Always-if (Moves is_connected c unsubscribed) (is_success sent.code) _ _
              (Always->>= (Moves is_connected c unsubscribed) (stop_client true c) _
                λ r. inr (connected, refl, refl))
              (inl refl))
            (λ left moves. moves)

unsubscribe-Moves :
    (heap : Heap) (out : SendScript) (c : Client)
    → Always (MovesTransmission c) (unsubscribe heap out (some c))
unfolding unsubscribe unsubscribe_client
unsubscribe-Moves heap out c =
    let P : Transmission → Type 0 = MovesTransmission c in
    Always-if_known P (is_connected c.state) _ _
      (λ connected.
        Always-if P (heap 0) _ _
          (Always-if P (heap 1) _ _
            (unsubscribe_prepared-Moves heap out c (prepare_unsubscription (heap_from 2 heap))
              connected)
            (inl refl))
          tt)
      (λ other. inl refl)

-- The loop is not started but in the state SUBSCRIBED, and starting it does not change the state.
abbrev pub StartsLoop : Client → Reply → Type 0
StartsLoop c r =
    SameState c r.client × (is_success r.code ≡ true → is_state c.state subscribed ≡ true)

loop_start-StartsLoop :
    (created : Bool) (c : Client) → Always (StartsLoop c) (loop_start created (some c))
unfolding loop_start
loop_start-StartsLoop created c =
    Always-if_known (StartsLoop c) (is_state c.state subscribed) _ _
      (λ there. Always-if (StartsLoop c) created _ _ (refl, (λ e. there)) (refl, (λ e. there)))
      (λ other. (refl, (λ e. cc)))

abbrev pub HasEnded : Reply → Type 0
HasEnded r = is_state r.client.state running ≡ false

loop_rounds-HasEnded :
    (rounds : List LoopRound) (c : Client) (calls : List Callback)
    → Always HasEnded (loop_rounds rounds c calls)
unfolding loop_rounds
loop_rounds-HasEnded [] c calls =
    Always-if_known HasEnded (is_state c.state running) _ _ (λ runs. tt) (λ ended. ended)
loop_rounds-HasEnded (round ∷ rounds) c calls =
    Always-if_known HasEnded (is_state c.state running) _ _
      (λ runs. Always->>= HasEnded (loop_body round c) _ λ result.
        loop_rounds-HasEnded rounds (changed round.state_change c) (calls ++ result.calls))
      (λ ended. ended)

-- The states of a client, for each call that returns, and with any answers of the system.
-- octopipes_subscribe leaves the state alone, or returns SUCCESS and the client is SUBSCRIBED.
-- octopipes_unsubscribe leaves it alone, or returns SUCCESS from SUBSCRIBED or RUNNING to
-- UNSUBSCRIBED. octopipes_loop_stop leaves it alone, or returns SUCCESS from UNSUBSCRIBED to STOPPED.
-- octopipes_loop_start does not change it, and succeeds from SUBSCRIBED only. octopipes_loop returns in
-- a state that is not RUNNING.
pub calls-Moves :
    (c : Client)
    → ((heap : Heap) (out : SendScript) (answer : ReceiveScript) (groups : List Bytes)
        → Always
            (λ s. Moves any_state c subscribed s.reply)
            (subscribe heap out answer groups (some c)))
      × ((heap : Heap) (out : SendScript)
          → Always (λ t. Moves is_connected c unsubscribed t.reply) (unsubscribe heap out (some c)))
      × ((joined : Bool) → Always (Moves is_unsubscribed c stopped) (loop_stop joined (some c)))
      × ((created : Bool) → Always (StartsLoop c) (loop_start created (some c)))
      × ((rounds : List LoopRound) → Always HasEnded (loop rounds c))
unfolding loop_stop loop
calls-Moves c = (
  (λ heap out answer groups. subscribe-Moves heap out answer groups c),
  (λ heap out. unsubscribe-Moves heap out c),
  (λ joined. stop_client-Moves joined c),
  (λ created. loop_start-StartsLoop created c),
  (λ rounds. loop_rounds-HasEnded rounds (record c { state = running }) []),
)
