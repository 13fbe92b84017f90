-- ===== src/Server/Dispatch/Recipients.antt =====
-- Whom a dispatch reaches.
use liboctopipes.Prelude.{
  ℕ, suc, ◌+◌, ◌*◌, ◌≡◌, ◌≢◌, refl, sym, ap, ◌∙◌, true, none, some, List, [], ◌∷◌, ◌++◌, map, arith,
  length, append-nil, append_assoc, if◌then◌else◌, Bool-cases, inl, inr,
}
use liboctopipes.Types.{Bytes, Message, ok}
use liboctopipes.Memory.{terminated}
use liboctopipes.Serializer.Frame.{Packet, IsPacket, message_of, wire, packet_checksum}
use liboctopipes.Serializer.Encode.{encode-wire, text_buffer-some, length-wire}
use liboctopipes.Cap.Subscribe.{IsText, scan_string-terminated}
use liboctopipes.Pipes.Delivery.{Carries, pipe_send-Carries}
use liboctopipes.Server.{Worker, success, to_server_error}
use liboctopipes.Server.Workers.{worker_match_subscription, worker_send}
use liboctopipes.Server.Dispatch.{Sending, dispatch_workers, dispatch_message}

-- The workers that subscribe to this remote, in their order.
abbrev pub recipients : Bytes → List Worker → List Worker
recipients remote [] = []
recipients remote (worker ∷ workers) =
    if worker_match_subscription worker remote
    then worker ∷ recipients remote workers
    else recipients remote workers

-- The frame of a packet in the pipe of each.
abbrev pub forwards : Packet → List Worker → List (Bytes × Bytes)
forwards q workers =
    map (λ w. (w.pipe_write, wire q (packet_checksum q))) (recipients q.remote workers)

-- Every FIFO takes the frame within the time to live of the packet.
abbrev pub Forwards : (ℕ → Sending) → Packet → Type 0
Forwards answers q =
    (i : ℕ)
    → ((answers i).heap 0 ≡ true)
      × Carries (answers i).out.attempts (answers i).out.events (q.ttl * 1000)
          (17 + length q.remote + length q.origin + length q.payload)

pub dispatch_message-some :
    (answers : ℕ → Sending) (workers : List Worker) (m : Message) (remote : Bytes)
    → m.remote ≡ some (terminated remote)
    → IsText remote
    → dispatch_message answers workers m ≡ dispatch_workers answers 0 workers remote m []
unfolding dispatch_message
dispatch_message-some answers workers m remote h text =
    rw (h, scan_string-terminated remote text) refl

-- A FIFO that takes the frame of the packet within its time to live.
abbrev pub Takes : Sending → Packet → Type 0
Takes s q =
    (s.heap 0 ≡ true)
    × Carries s.out.attempts s.out.events (q.ttl * 1000)
        (17 + length q.remote + length q.origin + length q.payload)

pub worker_send-wire :
    (s : Sending) (q : Packet) (checksum : ℕ)
    → IsPacket q
    → Takes s q
    → worker_send s.heap s.out (message_of q checksum)
      ≡ ok (record {
        code = success;
        message = message_of q (packet_checksum q);
        written = wire q (packet_checksum q);
      })
unfolding worker_send to_server_error
worker_send-wire s q checksum packs takes = rw (
  encode-wire s.heap q checksum packs takes.0,
  pipe_send-Carries (wire q (packet_checksum q)) takes.1 (length-wire q (packet_checksum q))
      (omega (arith, length-wire q (packet_checksum q), packs.frame_fits)),
)

module _ (answers : ℕ → Sending) (q : Packet) (packs : IsPacket q)
    (open_pipes : Forwards answers q) where
  dispatch_workers-forwards :
      (i checksum : ℕ) (workers : List Worker) (written : List (Bytes × Bytes))
      → dispatch_workers answers i workers q.remote (message_of q checksum) written
        ≡ ok (record { code = success; failed = none; written = written ++ forwards q workers })
  unfolding dispatch_workers
  dispatch_workers-forwards i checksum [] written =
      ap (λ w. ok (record { code = success; failed = none; written = w }))
        (sym (append-nil written))
  dispatch_workers-forwards i checksum (worker ∷ workers) written =
      elim (Bool-cases (worker_match_subscription worker q.remote)) [
        | inr other ↦
            rw (dispatch_workers, other)
              (dispatch_workers-forwards (suc i) checksum workers written)
        | inl listens ↦
            rw
              (
                dispatch_workers,
                listens,
                worker_send-wire (answers i) q checksum packs (open_pipes i),
              )
              (dispatch_workers-forwards (suc i) (packet_checksum q) workers
                  (written ++ (worker.pipe_write, wire q (packet_checksum q)) ∷ [])
                ∙ ap (λ w. ok (record { code = success; failed = none; written = w }))
                    (append_assoc written _ (forwards q workers)))
      ]

  -- A message with a remote reaches every worker that subscribes to the remote, and no other one:
  -- its frame goes once into the pipe of each of them, in the order of the workers. The pipes have
  -- to take it in time. The message fits a frame, and its remote is a non-empty text.
  pub dispatch_message-forwards :
      (checksum : ℕ) (workers : List Worker)
      → q.remote ≢ []
      → IsText q.remote
      → dispatch_message answers workers (message_of q checksum)
        ≡ ok (record { code = success; failed = none; written = forwards q workers })
  dispatch_message-forwards checksum workers some_remote text =
      dispatch_message-some answers workers (message_of q checksum) q.remote
        (text_buffer-some q.remote some_remote) text
      ∙ dispatch_workers-forwards 0 checksum workers []
