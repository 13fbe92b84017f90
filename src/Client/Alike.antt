-- ===== src/Client/Alike.antt =====
-- What each call leaves of a client.
pub mod Subscribing
use liboctopipes.Prelude.{
  ℕ, ◌*◌, ◌≡◌, refl, ◌∙◌, Bool, true, ◌||◌, Option, none, some, List, [], ◌∷◌, ◌++◌,
}
use liboctopipes.Types.{
  is_success, Bytes, Heap, heap_from, Message, State, is_state, subscribed, running, unsubscribed,
}
use liboctopipes.Memory.{u8, usable}
use liboctopipes.Serializer.{encode}
use liboctopipes.Pipes.{pipe_send}
use liboctopipes.Client.Requests.{request}
use liboctopipes.Cap.{prepare_unsubscription}
use liboctopipes.Client.{Client, Callback, Reply, SendScript, loop_start, stop_client, reply}
use liboctopipes.Client.Subscribe.{Subscribed}
use liboctopipes.Client.Unsubscribe.{leave, unsubscribe_client, unsubscribe_prepared, unsubscribe}
use liboctopipes.Client.Send.{Transmission, fill_message, transmit, send_client, send_ex}
use liboctopipes.Client.Loop.{LoopRound, changed, loop_body, loop_rounds, loop}
use liboctopipes.Types.Always.{
  Always, Always-bind, Always->>=, Always-handle, Always-if, Always-map,
}

-- Two clients of the same id, version and Common Access Pipe.
pub record Alike (c c' : Client) : Type 0 where
  pub same_id : c'.client_id ≡ c.client_id
  pub same_size : c'.client_id_size ≡ c.client_id_size
  pub same_version : c'.protocol_version ≡ c.protocol_version
  pub same_path : c'.common_access_pipe ≡ c.common_access_pipe

pub alike :
    {c c' : Client}
    → c'.client_id ≡ c.client_id
    → c'.client_id_size ≡ c.client_id_size
    → c'.protocol_version ≡ c.protocol_version
    → c'.common_access_pipe ≡ c.common_access_pipe
    → Alike c c'
alike a b d e = record { same_id = a; same_size = b; same_version = d; same_path = e }

pub Alike-refl : (c : Client) → Alike c c
Alike-refl c = alike refl refl refl refl

pub Alike-trans : {c d e : Client} → Alike c d → Alike d e → Alike c e
Alike-trans a b =
    alike (b.same_id ∙ a.same_id) (b.same_size ∙ a.same_size) (b.same_version ∙ a.same_version)
      (b.same_path ∙ a.same_path)

abbrev pub AlikeReply : Client → Reply → Type 0
AlikeReply c r = Alike c r.client

abbrev pub AlikeSubscribed : Client → Subscribed → Type 0
AlikeSubscribed c s = Alike c s.reply.client

abbrev pub AlikeTransmission : Client → Transmission → Type 0
AlikeTransmission c t = Alike c t.reply.client

pub stop_client-Alike : (joined : Bool) (c : Client) → Always (AlikeReply c) (stop_client joined c)
unfolding stop_client
stop_client-Alike joined c =
    Always-if (AlikeReply c) (is_state c.state unsubscribed) _ _
      (Always-if (AlikeReply c) c.thread_alive _ _
        (Always-if (AlikeReply c) joined _ _ (alike refl refl refl refl)
          (alike refl refl refl refl))
        tt)
      (Alike-refl c)

pub loop_start-Alike :
    (created : Bool) (c : Client) → Always (AlikeReply c) (loop_start created (some c))
unfolding loop_start
loop_start-Alike created c =
    Always-if (AlikeReply c) (is_state c.state subscribed) _ _
      (Always-if (AlikeReply c) created _ _ (alike refl refl refl refl) (Alike-refl c))
      (Alike-refl c)

leave-Alike : (c : Client) → Always (AlikeReply c) (leave c)
unfolding leave
leave-Alike c =
    Always-bind (AlikeReply c) (AlikeReply c) (stop_client true c) _ (stop_client-Alike true c)
      λ r same. alike same.same_id same.same_size same.same_version same.same_path

unsubscribe_prepared-Alike :
    (heap : Heap) (out : SendScript) (c : Client) (payload : Option Bytes)
    → Always (AlikeTransmission c) (unsubscribe_prepared heap out c payload)
unfolding unsubscribe_prepared
unsubscribe_prepared-Alike heap out c none = Alike-refl c
unsubscribe_prepared-Alike heap out c (some payload) =
    let P : Transmission → Type 0 = AlikeTransmission c in
    Always->>= P (request c (u8 c.client_id_size) payload) _ λ m.
      Always-handle P (encode (heap_from 3 heap) m) _ _ (λ e. Alike-refl c)
        λ frame. Always->>= P (pipe_send out.attempts out.events frame.0 5000) _ λ sent.
          Always-bind (AlikeReply c) P _ _
            (Always-if (AlikeReply c) (is_success sent.code) _ _ (leave-Alike c) (Alike-refl c))
            (λ left same. same)

pub unsubscribe-Alike :
    (heap : Heap) (out : SendScript) (c : Client)
    → Always (AlikeTransmission c) (unsubscribe heap out (some c))
unfolding unsubscribe unsubscribe_client
unsubscribe-Alike heap out c =
    let P : Transmission → Type 0 = AlikeTransmission c in
    Always-if P (is_state c.state subscribed || is_state c.state running) _ _
      (Always-if P (heap 0) _ _
        (Always-if P (heap 1) _ _
          (unsubscribe_prepared-Alike heap out c (prepare_unsubscription (heap_from 2 heap)))
          (Alike-refl c))
        tt)
      (Alike-refl c)

-- Sending leaves the client as it is.
transmit-same :
    (heap : Heap) (out : SendScript) (c : Client) (m : Message)
    → Always (λ t. t.reply.client ≡ c) (transmit heap out c m)
unfolding transmit
transmit-same heap out c m =
    Always-handle (λ t. t.reply.client ≡ c) (encode heap m) _ _ (λ e. refl)
      λ frame.
        Always->>= (λ t. t.reply.client ≡ c) (usable c.tx_pipe) _
          λ u.
            Always->>= (λ t. t.reply.client ≡ c)
              (pipe_send out.attempts out.events frame.0 (m.ttl * 1000)) _ λ sent. refl

pub send_ex-same :
    (heap : Heap) (out : SendScript) (remote payload : Option Bytes) (size ttl options : ℕ)
    (c : Client)
    → Always (λ t. t.reply.client ≡ c) (send_ex heap out remote payload size ttl options (some c))
unfolding send_ex send_client
send_ex-same heap out remote payload size ttl options c =
    Always-if (λ t. t.reply.client ≡ c) (is_state c.state running || is_state c.state subscribed) _
      _
      (Always-if (λ t. t.reply.client ≡ c) (heap 0) _ _
        (Always-handle (λ t. t.reply.client ≡ c)
          (fill_message heap c remote payload size ttl options) _ _ (λ e. refl)
          (transmit-same (heap_from 4 heap) out c))
        refl)
      refl

changed-Alike : (change : Option State) (c : Client) → Alike c (changed change c)
changed-Alike none c = Alike-refl c
changed-Alike (some state) c = alike refl refl refl refl

loop_rounds-Alike :
    (rounds : List LoopRound) (c : Client) (calls : List Callback)
    → Always (AlikeReply c) (loop_rounds rounds c calls)
unfolding loop_rounds
loop_rounds-Alike [] c calls =
    Always-if (AlikeReply c) (is_state c.state running) _ _ tt (Alike-refl c)
loop_rounds-Alike (round ∷ rounds) c calls =
    Always-if (AlikeReply c) (is_state c.state running) _ _
      (Always->>= (AlikeReply c) (loop_body round c) _ λ result.
        Always-map (AlikeReply (changed round.state_change c)) (AlikeReply c)
          (loop_rounds rounds (changed round.state_change c) (calls ++ result.calls))
          (λ r h. Alike-trans (changed-Alike round.state_change c) h)
          (loop_rounds-Alike rounds (changed round.state_change c) (calls ++ result.calls)))
      (Alike-refl c)

pub loop-Alike : (rounds : List LoopRound) (c : Client) → Always (AlikeReply c) (loop rounds c)
unfolding loop
loop-Alike rounds c =
    Always-map (AlikeReply (record c { state = running })) (AlikeReply c)
      (loop_rounds rounds (record c { state = running }) [])
      (λ r h. alike h.same_id h.same_size h.same_version h.same_path)
      (loop_rounds-Alike rounds (record c { state = running }) [])
