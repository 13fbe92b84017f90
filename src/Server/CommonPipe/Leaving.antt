-- ===== src/Server/CommonPipe/Leaving.antt =====
-- An unsubscription, from the request of the client to the end of its worker.
use liboctopipes.Prelude.{
  ◌+◌, ◌≡◌, ◌≢◌, ◌<◌, refl, true, ◌||◌, some, List, [], ◌∷◌, arith, length, All, Bool-cases, inl,
  inr,
}
use liboctopipes.Types.{ok, ◌>>=◌, Bytes, ample, Error, is_state, subscribed, running, unsubscribed}
use liboctopipes.Memory.{same_bytes}
use liboctopipes.Serializer.Frame.{Packet, packet_checksum}
use liboctopipes.Serializer.Encode.{text_buffer-some}
use liboctopipes.Serializer.RoundTrip.{decode-wire, checked-packet_checksum}
use liboctopipes.Cap.{cap_unsubscription, get_message, parse_unsubscribe}
use liboctopipes.Cap.Subscribe.{IsText, scan_string-terminated}
use liboctopipes.Pipes.Delivery.{Carries}
use liboctopipes.Client.{Client, SendScript, was_unsubscribed, when}
use liboctopipes.Client.Identity.{HasId}
use liboctopipes.Client.Requests.Wire.{request_packet, request_frame, request-IsPacket}
use liboctopipes.Client.Unsubscribe.{unsubscribe}
use liboctopipes.Client.Unsubscribe.Leaving.{unsubscribe-leaves}
use liboctopipes.Server.{success, Worker, Server}
use liboctopipes.Server.Workers.{is_worker, stop_among, stop_worker}
use liboctopipes.Server.Workers.Registry.{IsRegistry, IsEmptied, Stopped, stop_among-Stopped}
use liboctopipes.Server.CommonPipe.{
  CapReply, find_worker, manage_unsubscription, handle_cap_message,
}
use liboctopipes.Server.CommonPipe.Answers.{willing, serve}

find_worker-known :
    (client : Bytes) (workers : List Worker)
    → is_worker client workers ≡ true
    → find_worker client workers ≡ ok tt
unfolding find_worker
find_worker-known client [] known = cc
find_worker-known client (w ∷ workers) known = elim (Bool-cases (same_bytes w.client_id client)) [
  | inl same ↦ rw (find_worker, same)
  | inr ne ↦ rw (find_worker, ne) (find_worker-known client workers (rw ne at known))
]

stop_worker-left :
    (server : Server) (client : Bytes) (workers left : List Worker)
    → server.workers ≡ some workers
    → stop_among true client workers ≡ ok (success, left)
    → stop_worker true true server client ≡ ok (success, record server { workers = some left })
unfolding stop_worker
stop_worker-left server client workers left known stops = rw (known, stops)

pub manage_unsubscription-left :
    (server : Server) (client : Bytes) (workers left : List Worker)
    → server.workers ≡ some workers
    → is_worker client workers ≡ true
    → stop_among true client workers ≡ ok (success, left)
    → manage_unsubscription (true, true) server client (cap_unsubscription ∷ [])
      ≡ ok (record { code = success; server = record server { workers = some left }; written = [] })
unfolding manage_unsubscription parse_unsubscribe
manage_unsubscription-left server client [] left known registered stops = cc
manage_unsubscription-left server client (w ∷ ws) left known registered stops = rw (
  known,
  find_worker-known client (w ∷ ws) registered,
  stop_worker-left server client (w ∷ ws) left known stops,
)

-- What the server makes of the request of octopipes_unsubscribe.
pub serve-unsubscription :
    (server : Server) (client : Bytes) (out : SendScript) (answer : CapReply)
    → client ≢ []
    → IsText client
    → length client < 256
    → manage_unsubscription (true, true) server client (cap_unsubscription ∷ []) ≡ ok answer
    → serve (willing out) server (request_frame client (cap_unsubscription ∷ [])) ≡ ok answer
unfolding handle_cap_message get_message
serve-unsubscription server client out answer some_id text short managed =
    let payload : Bytes = cap_unsubscription ∷ [] in
    let q : Packet = request_packet client payload in
    rw (
      decode-wire ample q (packet_checksum q)
          (request-IsPacket client payload short (omega (arith, short))) (refl, refl, refl) refl,
      checked-packet_checksum q,
      text_buffer-some client some_id,
      scan_string-terminated client text,
      managed,
    )

-- The workers of different names and with empty inboxes, of which the client is one.
module _ (server : Server) (workers : List Worker) (client : Bytes)
    (known : server.workers ≡ some workers) (differ : IsRegistry workers)
    (emptied : All IsEmptied workers) (registered : is_worker client workers ≡ true) where
  -- A client that is subscribed, and a server whose workers have different names and empty inboxes
  -- and of which one is the client's. octopipes_unsubscribe returns SUCCESS and leaves the client
  -- UNSUBSCRIBED. What it writes into the CAP decodes to a message for which the server stops the
  -- worker of the client: its name is not registered then, every other name is as before, and the
  -- names still differ. The server writes no answer. The request goes out, the thread of the worker
  -- is joined, and no allocation fails. The client speaks version 1 under a non-empty id of at most
  -- 255 bytes.
  pub unsubscribe-handle_cap_message :
      (c : Client) (request out : SendScript)
      → HasId c client
      → client ≢ []
      → is_state c.state subscribed || is_state c.state running ≡ true
      → Carries request.attempts request.events 5000 (18 + length client)
      → let left_it = unsubscribe ample request (some c) in
        (left_it
          ≡ ok (record {
            reply = record {
              code = Error.success;
              client = record c { state = unsubscribed };
              calls = when c.on_unsubscribed was_unsubscribed;
            };
            written = request_frame client (cap_unsubscription ∷ []);
          }))
        × ((left : List Worker) × ((left_it >>= λ t. serve (willing out) server t.written)
              ≡ ok (record {
                code = success;
                server = record server { workers = some left };
                written = [];
              }))
            × Stopped client workers left)
  unsubscribe-handle_cap_message c request out has_id some_id connected goes_out =
      let (left, stops, s) = stop_among-Stopped client workers differ emptied registered in
      let leaves = unsubscribe-leaves c client request has_id connected goes_out in
      let served =
        serve-unsubscription server client out _ some_id has_id.is_text has_id.is_short
          (manage_unsubscription-left server client workers left known registered stops) in
      (leaves, (left, rw (leaves, served), s))
