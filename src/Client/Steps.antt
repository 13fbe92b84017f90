-- ===== src/Client/Steps.antt =====
-- The calls on a client as steps, and what stays the same through all of them.
use liboctopipes.Prelude.{sym, ◌∙◌, ℕ, ◌<◌, subst, ◌≡◌, refl, sym, Bool, Option, some, List, length}
use liboctopipes.Types.{ample, version_1, ok-injective, ok, Bytes, Heap}
use liboctopipes.Cap.Subscribe.{IsText}
use liboctopipes.Memory.{terminated}
use liboctopipes.Client.{
  octopipes_init, Client, Reply, SendScript, ReceiveScript, loop_start, loop_stop, set_received_cb,
  set_sent_cb, set_receive_error_cb, set_subscribed_cb, set_unsubscribed_cb,
}
use liboctopipes.Client.Identity.{octopipes_init-fresh, HasId, fresh}
use liboctopipes.Client.Subscribe.{Subscribed, subscribe}
use liboctopipes.Client.Unsubscribe.{unsubscribe}
use liboctopipes.Client.Send.{Transmission, send_ex}
use liboctopipes.Client.Loop.{LoopRound, loop}
use liboctopipes.Types.Always.{delivered}
use liboctopipes.Client.Alike.{
  Alike, alike, Alike-refl, Alike-trans, AlikeReply, AlikeSubscribed, AlikeTransmission,
  stop_client-Alike, loop_start-Alike, unsubscribe-Alike, send_ex-same, loop-Alike,
}
use liboctopipes.Client.Alike.Subscribing.{subscribe-Alike}

-- A call on a client that returns, and the client as it leaves it. Each takes any answers of the
-- system, and the loop any changes of the state by other threads.
pub data Step (c : Client) : Client → Type 0 where
  starts : (created : Bool) (r : Reply) → loop_start created (some c) ≡ ok r → Step c r.client
  stops : (joined : Bool) (r : Reply) → loop_stop joined (some c) ≡ ok r → Step c r.client
  subscribes :
      (heap : Heap) (out : SendScript) (answer : ReceiveScript) (groups : List Bytes)
      (s : Subscribed)
      → subscribe heap out answer groups (some c) ≡ ok s
      → Step c s.reply.client
  unsubscribes :
      (heap : Heap) (out : SendScript) (t : Transmission)
      → unsubscribe heap out (some c) ≡ ok t
      → Step c t.reply.client
  sends :
      (heap : Heap) (out : SendScript) (remote payload : Option Bytes) (size ttl options : ℕ)
      (t : Transmission)
      → send_ex heap out remote payload size ttl options (some c) ≡ ok t
      → Step c t.reply.client
  receives : (rounds : List LoopRound) (r : Reply) → loop rounds c ≡ ok r → Step c r.client
  listens : (set : Bool) (r : Reply) → set_received_cb set (some c) ≡ ok r → Step c r.client
  listens_sent : (set : Bool) (r : Reply) → set_sent_cb set (some c) ≡ ok r → Step c r.client
  listens_error :
      (set : Bool) (r : Reply) → set_receive_error_cb set (some c) ≡ ok r → Step c r.client
  listens_subscribed :
      (set : Bool) (r : Reply) → set_subscribed_cb set (some c) ≡ ok r → Step c r.client
  listens_unsubscribed :
      (set : Bool) (r : Reply) → set_unsubscribed_cb set (some c) ≡ ok r → Step c r.client

Step-Alike : (c : Client) {d : Client} → Step c d → Alike c d
unfolding loop_stop set_received_cb set_sent_cb set_receive_error_cb set_subscribed_cb
    set_unsubscribed_cb
Step-Alike c (starts created r e) = delivered (AlikeReply c) _ (loop_start-Alike created c) e
Step-Alike c (stops joined r e) = delivered (AlikeReply c) _ (stop_client-Alike joined c) e
Step-Alike c (subscribes heap out answer groups s e) =
    delivered (AlikeSubscribed c) _ (subscribe-Alike heap out answer groups c) e
Step-Alike c (unsubscribes heap out t e) =
    delivered (AlikeTransmission c) _ (unsubscribe-Alike heap out c) e
Step-Alike c (sends heap out remote payload size ttl options t e) =
    subst (Alike c)
      (sym (
        delivered (λ t. t.reply.client ≡ c) _
          (send_ex-same heap out remote payload size ttl options c) e))
      (Alike-refl c)
Step-Alike c (receives rounds r e) = delivered (AlikeReply c) _ (loop-Alike rounds c) e
Step-Alike c (listens set r e) =
    delivered (AlikeReply c) (set_received_cb set (some c)) (alike refl refl refl refl) e
Step-Alike c (listens_sent set r e) =
    delivered (AlikeReply c) (set_sent_cb set (some c)) (alike refl refl refl refl) e
Step-Alike c (listens_error set r e) =
    delivered (AlikeReply c) (set_receive_error_cb set (some c)) (alike refl refl refl refl) e
Step-Alike c (listens_subscribed set r e) =
    delivered (AlikeReply c) (set_subscribed_cb set (some c)) (alike refl refl refl refl) e
Step-Alike c (listens_unsubscribed set r e) =
    delivered (AlikeReply c) (set_unsubscribed_cb set (some c)) (alike refl refl refl refl) e

-- The clients that calls lead to.
pub data Reaches (c : Client) : Client → Type 0 where
  at_once : Reaches c c
  after : {d e : Client} → Reaches c d → Step d e → Reaches c e

-- A client that octopipes_init has made keeps its id and speaks version 1 through any sequence of
-- calls that return: subscribing, unsubscribing, sending, receiving, the start and the stop of the
-- loop, and setting the user's functions, with any answers of the system. The id is a text of at
-- most 255 bytes.
pub Reaches-HasId :
    (id path : Bytes) (made c : Client)
    → IsText id
    → length id < 256
    → IsText path
    → octopipes_init ample (terminated id) (terminated path) version_1 ≡ ok made
    → Reaches made c
    → HasId c id
Reaches-HasId id path made c text short path_text init way =
    has_id (subst (λ m. Alike m c) is_fresh (all way))
  where
    is_fresh : made ≡ fresh id path
    is_fresh = ok-injective (sym init ∙ octopipes_init-fresh id path text path_text)

    all : {d : Client} → Reaches made d → Alike made d
    all at_once = Alike-refl made
    all (after {d} way step) = Alike-trans (all way) (Step-Alike d step)

    has_id : Alike (fresh id path) c → HasId c id
    has_id same = record {
      speaks = same.same_version;
      named = same.same_id;
      sized = same.same_size;
      is_text = text;
      is_short = short;
    }
