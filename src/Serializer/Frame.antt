-- ===== src/Serializer/Frame.antt =====
-- The wire format as a description of its own: what a message carries, and how it lies in a frame.
use liboctopipes.Prelude.{
  ℕ, ◌+◌, ◌<◌, ◌^◌, Option, none, some, [], ◌∷◌, ◌++◌, length, bit_and, if◌then◌else◌, ◌==◌,
}
use liboctopipes.Types.{Bytes, Message, version_1, ignore_checksum}
use liboctopipes.Memory.{terminated}
use liboctopipes.Serializer.{soh, stx, etx, size_bytes, xor_bytes}

pub record Packet : Type 0 where
  pub origin : Bytes
  pub remote : Bytes
  pub ttl : ℕ
  pub options : ℕ
  pub payload : Bytes

-- The packets that fit the fields of a frame.
pub record IsPacket (p : Packet) : Type 0 where
  pub origin_fits : length p.origin < 256
  pub remote_fits : length p.remote < 256
  pub options_fits : p.options < 256
  pub frame_fits : 17 + length p.remote + length p.origin + length p.payload < 2 ^ 64

abbrev pub text_buffer : Bytes → Option Bytes
text_buffer [] = none
text_buffer (b ∷ bs) = some (terminated (b ∷ bs))

abbrev pub payload_buffer : Bytes → Option Bytes
payload_buffer [] = none
payload_buffer (b ∷ bs) = some (b ∷ bs)

-- The structure with the fields of a packet and these pointers.
abbrev pub structure : Packet → (origin remote payload : Option Bytes) → ℕ → Message
structure p origin remote payload checksum = record {
  version = version_1;
  origin_size = length p.origin;
  origin = origin;
  remote_size = length p.remote;
  remote = remote;
  ttl = p.ttl;
  data_size = length p.payload;
  options = p.options;
  checksum = checksum;
  payload = payload;
}

-- The structure that holds a packet.
abbrev pub message_of : Packet → ℕ → Message
message_of p = structure p (text_buffer p.origin) (text_buffer p.remote) (payload_buffer p.payload)

-- The fields behind the remote of a frame that announces `size` bytes of payload.
abbrev pub wire_tail : Packet → ℕ → ℕ → Bytes → Bytes
wire_tail p size checksum rest = p.ttl ∷ (size_bytes size ++ (p.options ∷ checksum ∷ stx ∷ rest))

-- A frame up to its start-of-text byte, and what follows that byte.
abbrev pub wire_header : Packet → ℕ → ℕ → Bytes → Bytes
wire_header p size checksum rest =
    soh
    ∷ version_1
    ∷ length p.origin
    ∷ (p.origin ++ (length p.remote ∷ (p.remote ++ wire_tail p size checksum rest)))

-- The frame of a packet.
abbrev pub wire : Packet → ℕ → Bytes
wire p checksum = wire_header p (length p.payload) checksum (p.payload ++ etx ∷ [])

-- The longitudinal check: all bytes of the frame, with 0 in the place of the checksum.
abbrev pub wire_sum : Packet → ℕ
wire_sum p = xor_bytes 0 (wire p 0)

abbrev pub packet_checksum : Packet → ℕ
packet_checksum p = if bit_and p.options ignore_checksum == 0 then wire_sum p else 0
