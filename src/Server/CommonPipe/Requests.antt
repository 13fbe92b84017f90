-- ===== src/Server/CommonPipe/Requests.antt =====
-- The same through the FIFO, the inbox and the mutex of the Common Access Pipe.
use liboctopipes.Prelude.{
  ◌+◌, ◌*◌, ◌<◌, ◌≡◌, ◌≢◌, refl, true, false, some, List, [], ◌∷◌, length, All, arith, none,
}
use liboctopipes.Types.{Outcome, ok, ◌>>=◌, Bytes, ample, Error, version_1}
use liboctopipes.Cap.{cap_unsubscription}
use liboctopipes.Cap.Subscribe.{
  IsText, IsGroup, buffers, group_frames, subscription_payload, length-group_frames-le,
}
use liboctopipes.Pipes.{ReadEvent}
use liboctopipes.Pipes.Delivery.{Carries, Delivers}
use liboctopipes.Client.{Client, SendScript, was_unsubscribed, when}
use liboctopipes.Client.Identity.{HasId}
use liboctopipes.Client.Requests.Wire.{request_frame, request_packet, request-IsPacket}
use liboctopipes.Client.Subscribe.{subscribe}
use liboctopipes.Client.Subscribe.Assigned.{IsIdle, subscription_frame, enters}
use liboctopipes.Client.Unsubscribe.{unsubscribe}
use liboctopipes.Server.{success, ServerState, Worker, Server, is_success}
use liboctopipes.Server.Workers.{is_worker}
use liboctopipes.Server.CommonPipe.{CapScript, CapReply, handle_cap_message, tx_path, rx_path}
use liboctopipes.Server.CommonPipe.Handshake.{
  joined_by, answer_to, serve-subscription_frame, subscribe-handle_cap_message,
}
use liboctopipes.Client.Unsubscribe.Leaving.{unsubscribe-leaves}
use liboctopipes.Server.CommonPipe.Answers.{willing, serve}
use liboctopipes.Server.CommonPipe.Leaving.{serve-unsubscription}
use liboctopipes.Serializer.Frame.{Packet, IsPacket, message_of, wire, packet_checksum}
use liboctopipes.Serializer.RoundTrip.{decode-wire, checked-packet_checksum}
use liboctopipes.Server.Listen.{cap_round}
use liboctopipes.Server.Listen.Collect.{cap_listen-entry_of}
use liboctopipes.Server.Inbox.{message_inbox_dequeue}
use liboctopipes.Server.CommonPipe.Process.{CapProcessed, process_cap_entry, process_cap_once}
use liboctopipes.Server.CommonPipe.Visits.{left_by, manage_unsubscription-joined_by}

-- The thread of the CAP reads what comes in, and then octopipes_server_process_cap_once is called.
abbrev pub through : CapScript → List ReadEvent → Server → Outcome CapProcessed
through script events server =
    cap_round
      (record {
        heap = ample;
        incoming = record { opened = true; events = events };
        state_change = none;
      })
      server
    >>= λ heard. process_cap_once script heard

-- The server that runs, with a free mutex and an empty inbox.
abbrev pub idle : Server → Server
idle server = record server {
  state = ServerState.running;
  locked = false;
  cap_inbox = some (some []);
}

-- The same while a request is handled.
abbrev pub busy : Server → Server
busy server = record server {
  state = ServerState.running;
  locked = true;
  cap_inbox = some (some []);
}

-- A request that the server handles with success is taken out of the inbox, and the mutex is free again.
through-serve :
    (script : CapScript) (events : List ReadEvent) (server : Server) (q : Packet) (done : CapReply)
    → IsPacket q
    → Delivers events 200 (wire q (packet_checksum q))
    → serve script (busy server) (wire q (packet_checksum q)) ≡ ok done
    → is_success done.code ≡ true
    → through script events (idle server)
      ≡ ok (record {
        reply = record done { server = record done.server { locked = false } };
        requests = 1;
      })
unfolding cap_round process_cap_once process_cap_entry message_inbox_dequeue
through-serve script events server q done packs comes served fine =
    let read = decode-wire ample q (packet_checksum q) packs (refl, refl, refl) refl in
    let handled : handle_cap_message script (busy server) (message_of q (packet_checksum q))
        ≡ ok done =
      rw (read, checked-packet_checksum q) at served in
    rw (
      cap_listen-entry_of ample (record { opened = true; events = events }) q []
          (record { roomy = refl; opened = refl; comes = comes; packs = packs }),
      handled,
      fine,
    )

module _ (server : Server) (workers : List Worker) (client : Bytes) (texts : List Bytes)
    (out : SendScript) (speaks : server.version ≡ version_1) (known : server.workers ≡ some workers)
    (new : is_worker client workers ≡ false) (is_text : IsText client) (short : length client < 256)
    (are_groups : All IsGroup texts) (few : length texts < 256)
    (paths : length server.client_folder + length client < 247)
    (carries : Carries out.attempts out.events 5000
      (39 + length client + 2 * (length server.client_folder + length client))) where
  -- A client of a new name subscribes and then unsubscribes; the second call returns SUCCESS and leaves
  -- the client UNSUBSCRIBED. What each call writes into the Common Access Pipe of a running server is read by
  -- the thread of the CAP, put into the inbox, and processed by octopipes_server_process_cap_once. The
  -- first one adds the worker of the client behind the others and writes the answer that the client
  -- reads. The second one leaves the server exactly as it was before both. Each time one request
  -- counts as processed, the inbox is empty again and the mutex free. The inbox is empty and the mutex
  -- free before. The thread reads each request by itself. The system does what is asked of it in time,
  -- the worker's thread is joined with an empty inbox, and no allocation fails. The client speaks
  -- version 1 under a non-empty id of at most 255 bytes, and asks for at most 255 groups of at most 255
  -- bytes each. The folder of the server and the id have at most 246 bytes together.
  pub through-subscribe-unsubscribe :
      (c : Client) (request farewell : SendScript) (events : List ReadEvent)
      (reads : Bytes → List ReadEvent)
      → HasId c client
      → client ≢ []
      → IsIdle c
      → Carries request.attempts request.events 5000
          (19 + length client + length (group_frames texts))
      → Delivers (reads (subscription_frame client texts)) 200 (subscription_frame client texts)
      → Delivers events 5000 (answer_to server client)
      → Carries farewell.attempts farewell.events 5000 (18 + length client)
      → Delivers
          (reads (request_frame client (cap_unsubscription ∷ [])))
          200
          (request_frame client (cap_unsubscription ∷ []))
      → let subscribed =
          subscribe ample request
            (record { opened = true; events = events })
            (buffers texts)
            (some c) in
        ((subscribed >>= λ s. through (willing out) (reads s.written) (idle server))
          ≡ ok (record {
            reply = record {
              code = success;
              server = joined_by (idle server) workers client texts;
              written = answer_to server client;
            };
            requests = 1;
          }))
        × ((subscribed >>= λ s.
              unsubscribe ample farewell (some s.reply.client) >>= λ t. ok t.reply)
            ≡ ok (record {
              code = Error.success;
              client =
                  left_by c
                    (tx_path server.client_folder client)
                    (rx_path server.client_folder client);
              calls = when c.on_unsubscribed was_unsubscribed;
            }))
        × ((subscribed >>= λ s. through (willing out) (reads s.written) (idle server) >>= λ joined.
              unsubscribe ample farewell (some s.reply.client) >>= λ t.
              through (willing out) (reads t.written) joined.reply.server)
            ≡ ok (record {
              reply = record { code = success; server = idle server; written = [] };
              requests = 1;
            }))
  through-subscribe-unsubscribe c request farewell events reads has_id some_id unbound goes_out
        comes_in comes leaves comes_last =
      let asked : Bytes = subscription_payload (length texts) (group_frames texts) in
      let bound = length-group_frames-le texts are_groups in
      let tx = tx_path server.client_folder client in
      let rx = rx_path server.client_folder client in
      let entered =
        (subscribe-handle_cap_message (busy server) workers client texts out refl speaks known new
          is_text short are_groups few paths carries c request events has_id some_id unbound
          goes_out comes).0 in
      let has_left : HasId (enters c 0 tx rx).reply.client client = record {
        speaks = has_id.speaks;
        named = has_id.named;
        sized = has_id.sized;
        is_text = has_id.is_text;
        is_short = has_id.is_short;
      } in
      let left =
        unsubscribe-leaves (enters c 0 tx rx).reply.client client farewell has_left refl leaves in
      let joins =
        through-serve (willing out) (reads (subscription_frame client texts)) server
          (request_packet client asked) _
          (request-IsPacket client asked short (omega (arith, bound, few, short))) comes_in
          (serve-subscription_frame (busy server) workers client texts out refl speaks known new
            is_text short are_groups few paths carries some_id)
          refl in
      let parts =
        through-serve (willing out) (reads (request_frame client (cap_unsubscription ∷ [])))
          (joined_by server workers client texts) (request_packet client (cap_unsubscription ∷ []))
          _ (request-IsPacket client (cap_unsubscription ∷ []) short (omega (arith, short)))
          comes_last
          (serve-unsubscription (joined_by (busy server) workers client texts) client out
            (record { code = success; server = busy server; written = [] }) some_id is_text short
            (manage_unsubscription-joined_by (busy server) workers client texts out refl speaks
              known new is_text short are_groups few paths carries))
          refl in
      (rw (entered, joins), rw (entered, left), rw (entered, joins, left, parts))
