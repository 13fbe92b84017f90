-- ===== src/Server/Sound/CommonPipe.antt =====
-- The requests on the Common Access Pipe leave the workers sound.
use liboctopipes.Prelude.{
  ℕ, ◌≡◌, refl, sym, subst, ◌∙◌, Bool, ◌&&◌, ◌==◌, Option, [], ◌∷◌, Bool-cases, Option-cases,
  List-cases, ◌⊎◌, inl, inr,
}
use liboctopipes.Types.{
  Outcome, ◌>>=◌, Error, Bytes, Heap, heap_from, Message, CapMessage, unknown, subscription,
  unsubscription, assignment,
}
use liboctopipes.Types.Always.{Always, Always->>=, Always-bind, Always-handle, Always-if}
use liboctopipes.Memory.{scan_string}
use liboctopipes.Serializer.{encode}
use liboctopipes.Cap.{
  cap_unsubscription, get_message, parse_subscribe, parse_unsubscribe, prepare_assign,
}
use liboctopipes.Pipes.{pipe_send}
use liboctopipes.Client.{SendScript}
use liboctopipes.Server.{ServerError, Server, is_success, is_running, is_blocked, registry}
use liboctopipes.Server.Workers.{is_worker, stop_worker}
use liboctopipes.Server.Lifecycle.{lock_cap, unlock_cap}
use liboctopipes.Server.CommonPipe.{
  CapScript, CapReply, cap_message, write_cap, answer_client, answer_subscription, answer_refusal,
  find_worker, manage_subscription, manage_unsubscription, handle_cap_message,
}
use liboctopipes.Server.Sound.{
  SoundWorkers, LeavesSound, start_worker-LeavesSound, stop_worker-LeavesSound,
}

-- The workers behind a request are sound.
abbrev pub ReplySound : CapReply → Type 0
ReplySound reply = SoundWorkers reply.server.workers

pub lock_cap-workers : (server : Server) → (lock_cap server).1.workers ≡ server.workers
unfolding lock_cap
lock_cap-workers server = elim (Bool-cases (is_running server.state)) [
  | inl e ↦ rw e
  | inr e ↦ rw e
]

pub unlock_cap-workers : (server : Server) → (unlock_cap server).workers ≡ server.workers
unfolding unlock_cap
unlock_cap-workers server = elim (Bool-cases (is_blocked server.state)) [
  | inl e ↦ rw e
  | inr e ↦ rw e
]

pub write_cap-ReplySound :
    (heap : Heap) (out : SendScript) (server : Server) (client payload : Bytes)
    → SoundWorkers server.workers
    → Always ReplySound (write_cap heap out server client payload)
unfolding write_cap
write_cap-ReplySound heap out server client payload sound =
    let released : SoundWorkers (unlock_cap (lock_cap server).1).workers =
      subst SoundWorkers (sym (unlock_cap-workers (lock_cap server).1 ∙ lock_cap-workers server))
        sound in
    Always-if ReplySound (is_running server.state) _ _
      (Always-if ReplySound (heap 0 && heap 1 && heap 2) _ _
        (Always->>= ReplySound (cap_message server client payload) _ λ m.
          Always-handle ReplySound (encode (heap_from 3 heap) m) _ _ (λ code. sound)
            λ frame.
              Always->>= ReplySound (pipe_send out.attempts out.events frame.0 5000) _
                λ sent. released)
        sound)
      sound

module _ (script : CapScript) where
  stop_behind :
      (server : Server) (client : Bytes) (f : ServerError × Server → Outcome CapReply)
      → SoundWorkers server.workers
      → ((left : ServerError × Server) → LeavesSound left → Always ReplySound (f left))
      → Always ReplySound (stop_worker script.stopping.0 script.stopping.1 server client >>= f)
  stop_behind server client f sound next =
      Always-bind LeavesSound ReplySound
        (stop_worker script.stopping.0 script.stopping.1 server client) f
        (stop_worker-LeavesSound script.stopping.0 script.stopping.1 server client sound) next

  answer_client-ReplySound :
      (server : Server) (client : Bytes) (cap_error : ℕ) (tx : Option Bytes) (tx_size : ℕ)
      (rx : Option Bytes) (rx_size : ℕ)
      → SoundWorkers server.workers
      → Always ReplySound (answer_client script server client cap_error tx tx_size rx rx_size)
  unfolding answer_client
  answer_client-ReplySound server client cap_error tx tx_size rx rx_size sound =
      Always->>= ReplySound (prepare_assign script.assign_heap cap_error tx tx_size rx rx_size) _
        λ prepared. elim (Option-cases prepared) [
          | inl failed ↦ rw failed (stop_behind server client _ sound (λ left s. s))
          | inr (payload, e) ↦ rw e (
              Always-bind ReplySound ReplySound
                (write_cap script.write_heap script.out server client payload) _
                (write_cap-ReplySound script.write_heap script.out server client payload sound)
                λ sent s.
                  Always-if ReplySound (is_success sent.code) _ _ s
                    (stop_behind sent.server client _ s (λ left l. l)))
        ]

  answer_refusal-ReplySound :
      (taken : Bool) (server : Server) (client : Bytes)
      → SoundWorkers server.workers
      → Always ReplySound (answer_refusal script taken server client)
  unfolding answer_refusal
  answer_refusal-ReplySound taken server client sound =
      Always-if ReplySound taken _ _ (answer_client-ReplySound server client _ _ _ _ _ sound) tt

  manage_subscription-ReplySound :
      (server : Server) (client payload : Bytes)
      → SoundWorkers server.workers
      → Always ReplySound (manage_subscription script server client payload)
  unfolding manage_subscription answer_subscription
  manage_subscription-ReplySound server client payload sound =
      Always-handle ReplySound (parse_subscribe script.groups_heap payload) _ _ (λ code. sound)
        λ groups.
          Always-if ReplySound (script.paths_heap 0 && script.paths_heap 1) _ _
            (Always->>= ReplySound (registry server) _ λ workers.
              Always-bind LeavesSound ReplySound _ _
                (start_worker-LeavesSound script.worker_heap script.grown script.worker server
                  client groups.groups groups.amount _ _ sound)
                λ started s. Always->>= ReplySound _ _ λ u.
                  Always-if ReplySound (is_success started.0) _ _
                    (answer_client-ReplySound started.1 client _ _ _ _ _ s)
                    (answer_refusal-ReplySound (is_worker client workers) started.1 client s))
            sound

parse_unsubscribe-cases :
    (payload : Bytes)
    → (parse_unsubscribe payload ≡ Error.success) ⊎ (parse_unsubscribe payload ≡ Error.bad_packet)
unfolding parse_unsubscribe
parse_unsubscribe-cases [] = inr refl
parse_unsubscribe-cases (object ∷ rest) = elim (Bool-cases (object == cap_unsubscription)) [
  | inl e ↦ inl (rw e)
  | inr e ↦ inr (rw e)
]

manage_unsubscription-ReplySound :
    (stopping : Bool × Bool) (server : Server) (client payload : Bytes)
    → SoundWorkers server.workers
    → Always ReplySound (manage_unsubscription stopping server client payload)
unfolding manage_unsubscription
manage_unsubscription-ReplySound stopping server client payload sound =
    elim (parse_unsubscribe-cases payload) [
      | inr bad ↦ rw (manage_unsubscription, bad) sound
      | inl good ↦
          rw (manage_unsubscription, good)
            (Always->>= ReplySound (registry server) _ λ workers. elim (List-cases workers) [
              | inl empty ↦ rw empty sound
              | inr (first, others, e) ↦ rw e (
                  Always->>= ReplySound (find_worker client (first ∷ others)) _ λ u.
                    Always-bind LeavesSound ReplySound
                      (stop_worker stopping.0 stopping.1 server client) _
                      (stop_worker-LeavesSound stopping.0 stopping.1 server client sound)
                      (λ left s. s))
            ])
    ]

CapMessage-cases :
    (k : CapMessage)
    → (k ≡ subscription) ⊎ ((k ≡ unsubscription) ⊎ ((k ≡ assignment) ⊎ (k ≡ unknown)))
CapMessage-cases subscription = inl refl
CapMessage-cases unsubscription = inr (inl refl)
CapMessage-cases assignment = inr (inr (inl refl))
CapMessage-cases unknown = inr (inr (inr refl))

pub handle_cap_message-ReplySound :
    (script : CapScript) (server : Server) (m : Message)
    → SoundWorkers server.workers
    → Always ReplySound (handle_cap_message script server m)
unfolding handle_cap_message
handle_cap_message-ReplySound script server m sound = elim (Option-cases m.payload) [
  | inl e ↦ rw e sound
  | inr (payload, e) ↦ elim (Option-cases m.origin) [
    | inl o ↦ rw (e, o) sound
    | inr (origin, o) ↦ elim (CapMessage-cases (get_message payload)) [
      | inl k ↦
          rw (e, o, k)
            (Always->>= ReplySound (scan_string origin) _
              λ client. manage_subscription-ReplySound script server client payload sound)
      | inr (inl k) ↦
          rw (e, o, k)
            (Always->>= ReplySound (scan_string origin) _ λ client.
              manage_unsubscription-ReplySound script.stopping server client payload sound)
      | inr (inr (inl k)) ↦ rw (e, o, k) sound
      | inr (inr (inr k)) ↦ rw (e, o, k) sound
    ]
  ]
]
