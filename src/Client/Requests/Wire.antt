-- ===== src/Client/Requests/Wire.antt =====
-- The frame of a request to the server.
use liboctopipes.Prelude.{
  ℕ, ◌+◌, ◌<◌, ◌^◌, ◌≡◌, refl, sym, ap, ◌∙◌, true, none, some, [], ◌∷◌, arith, length,
}
use liboctopipes.Types.{ok, Bytes, Heap, Message}
use liboctopipes.Memory.{read_pointer, terminated, u8}
use liboctopipes.Memory.Cursor.{read_bytes-drop, read_pointer-append, read_pointer-some}
use liboctopipes.Serializer.{encode}
use liboctopipes.Serializer.Frame.{Packet, IsPacket, structure, wire, packet_checksum}
use liboctopipes.Serializer.Encode.{encode-structure, length-wire}
use liboctopipes.Client.{Client}
use liboctopipes.Client.Identity.{HasId, u8-size}
use liboctopipes.Client.Requests.{request, default_ttl}

abbrev pub request_packet : (id payload : Bytes) → Packet
request_packet id payload = record {
  origin = id;
  remote = [];
  ttl = default_ttl;
  options = 0;
  payload = payload;
}

abbrev pub request_frame : (id payload : Bytes) → Bytes
request_frame id payload =
    wire (request_packet id payload) (packet_checksum (request_packet id payload))

abbrev pub request_message : (id payload : Bytes) → ℕ → Message
request_message id payload =
    structure (request_packet id payload) (some (terminated id)) none (some payload)

-- The size is read from the client, in full or as one byte of it.
pub request-request_message :
    {c : Client} {id : Bytes} (payload : Bytes)
    → HasId c id
    → request c c.client_id_size payload ≡ ok (request_message id payload 0)
unfolding request
request-request_message {c} {id} payload has_id = rw (
  has_id.sized,
  u8-byte (length id) has_id.is_short,
  has_id.named,
  read_bytes-drop (terminated id) 0 id (0 ∷ []) refl (omega arith),
  has_id.speaks,
)
  where
    u8-byte : (n : ℕ) → n < 256 → u8 n ≡ n
    u8-byte n h = omega arith

pub request-request_message_byte :
    {c : Client} {id : Bytes} (payload : Bytes)
    → HasId c id
    → request c (u8 c.client_id_size) payload ≡ ok (request_message id payload 0)
request-request_message_byte {c} {id} payload has_id =
    ap (λ size. request c size payload) (u8-size has_id ∙ sym has_id.sized)
    ∙ request-request_message payload has_id

pub request-IsPacket :
    (id payload : Bytes)
    → length id < 256
    → 17 + length id + length payload < 2 ^ 64
    → IsPacket (request_packet id payload)
request-IsPacket id payload short fits = record {
  origin_fits = short;
  remote_fits = omega arith;
  options_fits = omega arith;
  frame_fits = omega (arith, fits);
}

pub encode-request_message :
    (heap : Heap) (id payload : Bytes)
    → heap 0 ≡ true
    → length id < 256
    → 17 + length id + length payload < 2 ^ 64
    → encode heap (request_message id payload 0)
      ≡ ok (
        request_frame id payload,
        request_message id payload (packet_checksum (request_packet id payload)),
      )
encode-request_message heap id payload room short fits =
    encode-structure (request_packet id payload) (some (terminated id)) none (some payload)
      (read_pointer-append id (0 ∷ [])) (unfold read_pointer in refl) (read_pointer-some payload)
      heap 0 (request-IsPacket id payload short fits) room

pub length-request_frame :
    (id payload : Bytes) → length (request_frame id payload) ≡ 17 + length id + length payload
length-request_frame id payload =
    length-wire (request_packet id payload) (packet_checksum (request_packet id payload))
    ∙ omega arith
