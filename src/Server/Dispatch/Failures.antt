-- ===== src/Server/Dispatch/Failures.antt =====
-- A dispatch that fails on the way.
use liboctopipes.Prelude.{
  ℕ, suc, ◌*◌, ◌≡◌, ◌≢◌, refl, ap, ◌∙◌, true, false, some, List, [], ◌∷◌, ◌++◌, append_assoc,
  Bool-cases, inl, inr,
}
use liboctopipes.Types
use liboctopipes.Types.{ok, ◌>>=◌, Bytes, is_success as is_success_code}
use liboctopipes.Serializer.Frame.{Packet, IsPacket, message_of, wire, packet_checksum}
use liboctopipes.Serializer.Encode.{encode-wire, text_buffer-some}
use liboctopipes.Cap.Subscribe.{IsText}
use liboctopipes.Pipes.{Sent, pipe_send}
use liboctopipes.Server.{Worker, to_server_error, is_success}
use liboctopipes.Server.Workers.{worker_match_subscription, worker_send}
use liboctopipes.Server.Dispatch.{Sending, dispatch_workers, dispatch_message}
use liboctopipes.Server.Dispatch.Recipients.{
  Takes, forwards, worker_send-wire, dispatch_message-some,
}

to_server_error-is_success :
    (code : Types.Error) → is_success_code code ≡ false → is_success (to_server_error code) ≡ false
unfolding to_server_error
to_server_error-is_success Types.success h = cc
to_server_error-is_success Types.uninitialized h = refl
to_server_error-is_success Types.bad_packet h = refl
to_server_error-is_success Types.bad_checksum h = refl
to_server_error-is_success Types.unsupported_version h = refl
to_server_error-is_success Types.no_data_available h = refl
to_server_error-is_success Types.open_failed h = refl
to_server_error-is_success Types.write_failed h = refl
to_server_error-is_success Types.read_failed h = refl
to_server_error-is_success Types.cap_timeout h = refl
to_server_error-is_success Types.not_subscribed h = refl
to_server_error-is_success Types.not_unsubscribed h = refl
to_server_error-is_success Types.thread h = refl
to_server_error-is_success Types.bad_alloc h = refl
to_server_error-is_success Types.unknown_error h = refl

-- From worker i on, the FIFOs of those of these workers that subscribe to the remote take the frame, and
-- the next one behind them answers with what was sent.
abbrev pub FailsBehind : (ℕ → Sending) → Packet → Sent → ℕ → List Worker → Type 0
FailsBehind answers q sent i [] =
    ((answers i).heap 0 ≡ true)
    × (pipe_send (answers i).out.attempts (answers i).out.events (wire q (packet_checksum q))
          (q.ttl * 1000)
        ≡ ok sent)
FailsBehind answers q sent i (worker ∷ before) =
    (worker_match_subscription worker q.remote ≡ true → Takes (answers i) q)
    × FailsBehind answers q sent (suc i) before

module _ (answers : ℕ → Sending) (q : Packet) (packs : IsPacket q) (sent : Sent) (worker : Worker)
    (behind : List Worker) (listens : worker_match_subscription worker q.remote ≡ true)
    (fails : is_success_code sent.code ≡ false) where
  worker_send-sent :
      (s : Sending) (checksum : ℕ)
      → s.heap 0 ≡ true
      → pipe_send s.out.attempts s.out.events (wire q (packet_checksum q)) (q.ttl * 1000) ≡ ok sent
      → worker_send s.heap s.out (message_of q checksum)
        ≡ ok (record {
          code = to_server_error sent.code;
          message = message_of q (packet_checksum q);
          written = sent.written;
        })
  unfolding worker_send
  worker_send-sent s checksum room e = rw (encode-wire s.heap q checksum packs room, e)

  dispatch_workers-stops :
      (i checksum : ℕ) (before : List Worker) (written : List (Bytes × Bytes))
      → FailsBehind answers q sent i before
      → dispatch_workers answers i
          (before ++ worker ∷ behind)
          q.remote
          (message_of q checksum)
          written
        ≡ ok (record {
          code = to_server_error sent.code;
          failed = some worker.client_id;
          written = written ++ (forwards q before ++ (worker.pipe_write, sent.written) ∷ []);
        })
  unfolding dispatch_workers
  dispatch_workers-stops i checksum [] written h = rw (
    dispatch_workers,
    listens,
    worker_send-sent (answers i) checksum h.0 h.1,
    ◌>>=◌,
    to_server_error-is_success sent.code fails,
  )
  dispatch_workers-stops i checksum (w ∷ before) written h =
      elim (Bool-cases (worker_match_subscription w q.remote)) [
        | inr other ↦
            rw (dispatch_workers, other)
              (dispatch_workers-stops (suc i) checksum before written h.1)
        | inl hears ↦
            rw (dispatch_workers, hears, worker_send-wire (answers i) q checksum packs (h.0 hears))
              (dispatch_workers-stops (suc i) (packet_checksum q) before
                  (written ++ (w.pipe_write, wire q (packet_checksum q)) ∷ []) h.1
                ∙ ap
                    (λ ws. ok (record {
                      code = to_server_error sent.code;
                      failed = some worker.client_id;
                      written = ws;
                    }))
                    (append_assoc written _
                      (forwards q before ++ (worker.pipe_write, sent.written) ∷ [])))
      ]

  -- A message for which the FIFO of one subscriber fails, while those of the subscribers before it take
  -- the frame: octopipes_server_dispatch_message returns the error, and names that worker. The frame
  -- has gone once into the pipe of each subscriber before, in their order, and what the failing one
  -- took into its pipe; the workers behind it get nothing, whatever they subscribe to. The message
  -- fits a frame, and its remote is a non-empty text.
  pub dispatch_message-stops :
      (checksum : ℕ) (before : List Worker)
      → q.remote ≢ []
      → IsText q.remote
      → FailsBehind answers q sent 0 before
      → dispatch_message answers (before ++ worker ∷ behind) (message_of q checksum)
        ≡ ok (record {
          code = to_server_error sent.code;
          failed = some worker.client_id;
          written = forwards q before ++ (worker.pipe_write, sent.written) ∷ [];
        })
  dispatch_message-stops checksum before some_remote text h =
      dispatch_message-some answers (before ++ worker ∷ behind) (message_of q checksum) q.remote
        (text_buffer-some q.remote some_remote) text
      ∙ dispatch_workers-stops 0 checksum before [] h
