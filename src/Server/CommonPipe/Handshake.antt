-- ===== src/Server/CommonPipe/Handshake.antt =====
-- A subscription, from the request of the client to the answer of the server.
use liboctopipes.Prelude.{
  ◌+◌, ◌*◌, ◌<◌, ◌≡◌, ◌≢◌, refl, subst, true, false, some, List, [], ◌∷◌, ◌++◌, arith, length,
  length-append, All, le→leb,
}
use native.Mathlib.Nat.{add-zero}
use liboctopipes.Types.{ok, ◌>>=◌, Bytes, ample, version_1}
use liboctopipes.Serializer.Frame.{packet_checksum}
use liboctopipes.Serializer.Encode.{text_buffer-some}
use liboctopipes.Serializer.RoundTrip.{decode-wire, checked-packet_checksum}
use liboctopipes.Cap.{get_message}
use liboctopipes.Cap.Subscribe.{
  IsText, IsGroup, buffers, group_frames, subscription_payload, parse_subscribe-group_frames,
  scan_string-terminated, length-group_frames-le, length-buffers,
}
use liboctopipes.Pipes.{ReadEvent}
use liboctopipes.Pipes.Delivery.{Carries, Delivers}
use liboctopipes.Client.{Client, SendScript}
use liboctopipes.Client.Identity.{HasId}
use liboctopipes.Client.Requests.Wire.{request_packet, request-IsPacket}
use liboctopipes.Client.Subscribe.{subscribe}
use liboctopipes.Client.Subscribe.Assigned.{
  subscription_frame, IsIdle, answer_frame, assignment_rest, enters, subscribe-enters,
}
use liboctopipes.Server.{success, Worker, Server, ServerState}
use liboctopipes.Server.Workers.{is_worker, worker_of}
use liboctopipes.Server.Workers.Registry.{start_worker-worker_of}
use liboctopipes.Server.CommonPipe.{tx_path, rx_path, manage_subscription, handle_cap_message}
use liboctopipes.Server.CommonPipe.Answers.{answer_subscription-answer_frame, willing, serve}

-- The frame with which the server answers it.
abbrev pub answer_to : Server → Bytes → Bytes
answer_to server client =
    answer_frame client (
      assignment_rest 0 (tx_path server.client_folder client) (rx_path server.client_folder client))

groups-IsText : (texts : List Bytes) → All IsGroup texts → All IsText texts
groups-IsText [] h = tt
groups-IsText (text ∷ texts) h = (h.0.0, groups-IsText texts h.1)

-- The server with the worker of a new client behind the others.
abbrev pub joined_by : Server → List Worker → Bytes → List Bytes → Server
joined_by server workers client groups = record server {
  workers = some (
      workers
      ++ worker_of client groups (tx_path server.client_folder client)
          (rx_path server.client_folder client)
        ∷ []);
}

module _ (server : Server) (workers : List Worker) (client : Bytes) (texts : List Bytes)
    (out : SendScript) (runs : server.state ≡ ServerState.running)
    (speaks : server.version ≡ version_1) (known : server.workers ≡ some workers)
    (new : is_worker client workers ≡ false) (is_text : IsText client) (short : length client < 256)
    (are_groups : All IsGroup texts) (few : length texts < 256)
    (paths : length server.client_folder + length client < 247)
    (carries : Carries out.attempts out.events 5000
      (39 + length client + 2 * (length server.client_folder + length client))) where
  length-tx_path :
      (folder : Bytes) → length (tx_path folder client) ≡ 9 + length folder + length client
  length-tx_path folder = simp length-append (omega arith)

  length-rx_path :
      (folder : Bytes) → length (rx_path folder client) ≡ 9 + length folder + length client
  length-rx_path folder = simp length-append (omega arith)

  manage_subscription-answer_frame :
      manage_subscription
        (willing out)
        server
        client
        (subscription_payload (length texts) (group_frames texts))
      ≡ ok (record {
        code = success;
        server = joined_by server workers client texts;
        written = answer_to server client;
      })
  unfolding manage_subscription
  manage_subscription-answer_frame =
      let tx = tx_path server.client_folder client in
      let rx = rx_path server.client_folder client in
      let tx_size = length-tx_path server.client_folder in
      let rx_size = length-rx_path server.client_folder in
      rw (
        rw add-zero at (parse_subscribe-group_frames texts 0),
        known,
        new,
        start_worker-worker_of (record server { workers = some workers }) workers client texts tx rx
            refl new (groups-IsText texts are_groups),
        length-buffers texts,
        le→leb (length texts) (length texts) (omega arith),
        answer_subscription-answer_frame (joined_by server workers client texts) client out runs
            speaks short tx rx (omega (arith, tx_size, paths)) (omega (arith, rx_size, paths))
            (subst (Carries out.attempts out.events 5000) (omega (arith, tx_size, rx_size))
              carries),
      )

  -- The request of the client comes in.
  pub serve-subscription_frame :
      client ≢ []
      → serve (willing out) server (subscription_frame client texts)
        ≡ ok (record {
          code = success;
          server = joined_by server workers client texts;
          written = answer_to server client;
        })
  unfolding handle_cap_message get_message
  serve-subscription_frame some_id =
      let payload : Bytes = subscription_payload (length texts) (group_frames texts) in
      let bound = length-group_frames-le texts are_groups in
      rw (
        decode-wire ample (request_packet client payload)
            (packet_checksum (request_packet client payload))
            (request-IsPacket client payload short (omega (arith, bound, few, short)))
            (refl, refl, refl) refl,
        checked-packet_checksum (request_packet client payload),
        text_buffer-some client some_id,
        scan_string-terminated client is_text,
        manage_subscription-answer_frame,
      )

  -- A client that is not subscribed yet, and a server that runs and knows no client of that name.
  -- What octopipes_subscribe writes into the Common Access Pipe decodes to a message for which the
  -- server starts a worker with the groups of the client, and writes an answer into the Common Access
  -- Pipe. If the client reads that answer, octopipes_subscribe returns SUCCESS and the client is
  -- SUBSCRIBED, with the two paths of its worker's FIFOs. The system does what is asked of it in time,
  -- and no allocation fails. The client speaks version 1 under a non-empty id of at most 255 bytes. It
  -- asks for at most 255 groups of at most 255 bytes each. The folder of the server and the id have at
  -- most 246 bytes together.
  pub subscribe-handle_cap_message :
      (c : Client) (request : SendScript) (events : List ReadEvent)
      → HasId c client
      → client ≢ []
      → IsIdle c
      → Carries request.attempts request.events 5000
          (19 + length client + length (group_frames texts))
      → Delivers events 5000 (answer_to server client)
      → let subscribed =
          subscribe ample request
            (record { opened = true; events = events })
            (buffers texts)
            (some c) in
        (subscribed
          ≡ ok
              (record (enters c 0
                (tx_path server.client_folder client)
                (rx_path server.client_folder client)) {
                  written = subscription_frame client texts;
                }))
        × ((subscribed >>= λ s. serve (willing out) server s.written)
            ≡ ok (record {
              code = success;
              server = joined_by server workers client texts;
              written = answer_to server client;
            }))
  subscribe-handle_cap_message c request events has_id some_id idle goes_out comes =
      let tx_size = length-tx_path server.client_folder in
      let rx_size = length-rx_path server.client_folder in
      let entered =
        subscribe-enters c client has_id some_id idle 0 (tx_path server.client_folder client)
          (rx_path server.client_folder client) texts request events are_groups few
          (omega (arith, tx_size, rx_size, paths)) goes_out comes in
      (entered, rw (entered, serve-subscription_frame some_id))
