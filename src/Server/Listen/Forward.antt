-- ===== src/Server/Listen/Forward.antt =====
-- From the pipe of one client to those of others.
use liboctopipes.Prelude.{ℕ, ◌≡◌, ◌≢◌, refl, true, none, some, List, [], ◌∷◌}
use liboctopipes.Types.{ok, err, fault, dangling, ◌>>=◌, Error, Bytes, ample}
use liboctopipes.Serializer.{decode}
use liboctopipes.Serializer.Frame.{Packet, IsPacket, wire, packet_checksum}
use liboctopipes.Serializer.RoundTrip.{decode-wire, checked-packet_checksum}
use liboctopipes.Cap.Subscribe.{IsText}
use liboctopipes.Pipes.{ReadEvent}
use liboctopipes.Pipes.Delivery.{Delivers, pipe_receive-Delivers}
use liboctopipes.Server.{success, Worker}
use liboctopipes.Server.Inbox.{message_inbox_push, message_inbox_dequeue}
use liboctopipes.Server.Dispatch.{Sending, process_first, first_among, process_entry}
use liboctopipes.Server.Dispatch.Recipients.{Forwards, forwards, dispatch_message-forwards}
use liboctopipes.Server.Listen.{push_decoded, listen_round}

-- The thread of a worker with an empty inbox reads a frame, and octopipes_server_process_first is
-- called for a server whose first worker this is: the frame is written into the pipes of exactly
-- the workers that subscribe to its remote, the entry counts as processed, and the inbox is empty
-- again. No allocation fails, and the pipes take the frame in time. The message fits a frame, and
-- its remote is a non-empty text.
pub process_first-forwards :
    (worker : Worker) (workers : List Worker) (answers : ℕ → Sending) (q : Packet)
    (events : List ReadEvent)
    → IsPacket q
    → Forwards answers q
    → q.remote ≢ []
    → IsText q.remote
    → Delivers events 200 (wire q (packet_checksum q))
    → (listen_round ample (record { opened = true; events = events }) (some []) >>= λ inbox.
        process_first answers (record worker { inbox = inbox } ∷ workers))
      ≡ ok (record {
        code = success;
        client = none;
        requests = 1;
        workers = record worker { inbox = some [] } ∷ workers;
        written = forwards q (record worker { inbox = some [] } ∷ workers);
      })
unfolding listen_round push_decoded message_inbox_push process_first first_among
    message_inbox_dequeue process_entry
process_first-forwards worker workers answers q events packs open_pipes some_remote text comes =
    rw (
      pipe_receive-Delivers comes,
      decode-wire ample q (packet_checksum q) packs (refl, refl, refl) refl,
      checked-packet_checksum q,
      dispatch_message-forwards answers q packs open_pipes (packet_checksum q)
          (record worker { inbox = some [] } ∷ workers) some_remote text,
    )

-- The thread of a worker with an empty inbox reads data that octopipes_decode refuses, and
-- octopipes_server_process_first is called for a server whose first worker this is.
-- octopipes_decode has freed the message, the dangling pointer goes into the inbox, and
-- octopipes_server_process_first reads through it. No allocation fails.
pub process_first_refused :
    (worker : Worker) (workers : List Worker) (answers : ℕ → Sending) (bytes : Bytes)
    (events : List ReadEvent) (code : Error)
    → decode ample bytes ≡ err code
    → Delivers events 200 bytes
    → (listen_round ample (record { opened = true; events = events }) (some []) >>= λ inbox.
        process_first answers (record worker { inbox = inbox } ∷ workers))
      ≡ fault dangling
unfolding listen_round push_decoded message_inbox_push process_first first_among
    message_inbox_dequeue process_entry
process_first_refused worker workers answers bytes events code bad comes =
    rw (pipe_receive-Delivers comes, bad)
