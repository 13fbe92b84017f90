-- ===== src/Serializer/Encode.antt =====
-- What octopipes_encode writes.
use liboctopipes.Prelude.{
  ℕ, ◌+◌, ◌<◌, ◌≡◌, ◌≢◌, refl, true, Option, some, [], ◌∷◌, ◌++◌, arith, le→leb, bit_and, bit_xor,
  zero-bit_xor, bit_xor-zero, length, length-append, ◌==◌, Bool-cases, inl, inr,
}
use liboctopipes.Types.{ok, Bytes, Heap, ignore_checksum}
use liboctopipes.Memory.{terminated, read_pointer, u8, u64}
use liboctopipes.Memory.Cursor.{read_pointer-append, read_pointer-some}
use liboctopipes.Serializer.{xor_bytes, calculate_checksum, encode, encode_frame, encode_checksum}
use liboctopipes.Serializer.Frame.{
  Packet, IsPacket, text_buffer, payload_buffer, message_of, structure, wire, wire_sum,
  packet_checksum,
}

pub read_pointer-text_buffer :
    (text : Bytes) → read_pointer (text_buffer text) (length text) ≡ ok text
read_pointer-text_buffer [] = unfold read_pointer in refl
read_pointer-text_buffer (b ∷ bs) = read_pointer-append (b ∷ bs) (0 ∷ [])

pub read_pointer-payload_buffer :
    (bytes : Bytes) → read_pointer (payload_buffer bytes) (length bytes) ≡ ok bytes
read_pointer-payload_buffer [] = unfold read_pointer in refl
read_pointer-payload_buffer (b ∷ bs) = read_pointer-some (b ∷ bs)

pub text_buffer-some : (id : Bytes) → id ≢ [] → text_buffer id ≡ some (terminated id)
text_buffer-some [] h = absurd (h refl)
text_buffer-some (b ∷ bs) h = refl

pub xor_bytes-append :
    (xs ys : Bytes) (acc : ℕ) → xor_bytes acc (xs ++ ys) ≡ xor_bytes (xor_bytes acc xs) ys
xor_bytes-append [] ys acc = refl
xor_bytes-append (x ∷ xs) ys acc = xor_bytes-append xs ys (bit_xor acc x)

u8-byte : (n : ℕ) → n < 256 → u8 n ≡ n
u8-byte n h = omega arith

pub length-wire :
    (p : Packet) (checksum : ℕ)
    → length (wire p checksum) ≡ 17 + length p.remote + length p.origin + length p.payload
length-wire p checksum = simp length-append (omega arith)

-- The structure whose pointers hold the parts of a packet, whatever lies behind them.
module _ (p : Packet) (origin remote payload : Option Bytes)
    (origin_read : read_pointer origin (length p.origin) ≡ ok p.origin)
    (remote_read : read_pointer remote (length p.remote) ≡ ok p.remote)
    (payload_read : read_pointer payload (length p.payload) ≡ ok p.payload) where
  -- The sum that the code accumulates field by field is that of the whole frame.
  pub calculate_checksum-structure :
      (checksum : ℕ)
      → p.options < 256
      → calculate_checksum (structure p origin remote payload checksum) ≡ ok (wire_sum p)
  unfolding calculate_checksum
  calculate_checksum-structure checksum h = simp (
    origin_read,
    remote_read,
    payload_read,
    u8-byte p.options h,
    xor_bytes-append,
    zero-bit_xor,
    bit_xor-zero,
  )

  encode_checksum-structure :
      (checksum : ℕ)
      → p.options < 256
      → encode_checksum (structure p origin remote payload checksum) ≡ ok (packet_checksum p)
  unfolding encode_checksum
  encode_checksum-structure checksum h =
      elim (Bool-cases (bit_and p.options ignore_checksum == 0)) [
        | inl used ↦ rw used (calculate_checksum-structure checksum h)
        | inr ignored ↦ rw ignored
      ]

  encode_frame-structure :
      (old checksum : ℕ)
      → p.options < 256
      → encode_frame (structure p origin remote payload old) checksum ≡ ok (wire p checksum)
  unfolding encode_frame
  encode_frame-structure old checksum h =
      simp (origin_read, remote_read, payload_read, u8-byte p.options h)

  -- Encoding such a structure gives the frame of the packet.
  pub encode-structure :
      (heap : Heap) (old : ℕ)
      → IsPacket p
      → heap 0 ≡ true
      → encode heap (structure p origin remote payload old)
        ≡ ok (wire p (packet_checksum p), structure p origin remote payload (packet_checksum p))
  unfolding encode
  encode-structure heap old fits room = rw (
    room,
    encode_checksum-structure 0 fits.options_fits,
    encode_frame-structure old (packet_checksum p) fits.options_fits,
    le→leb (length (wire p (packet_checksum p)))
        (u64 (17 + length p.remote + length p.origin + length p.payload))
        (omega (arith, length-wire p (packet_checksum p), fits.frame_fits)),
  )

pub calculate_checksum-message_of :
    (p : Packet) (checksum : ℕ)
    → p.options < 256
    → calculate_checksum (message_of p checksum) ≡ ok (wire_sum p)
calculate_checksum-message_of p =
    calculate_checksum-structure p (text_buffer p.origin) (text_buffer p.remote)
      (payload_buffer p.payload) (read_pointer-text_buffer p.origin)
      (read_pointer-text_buffer p.remote) (read_pointer-payload_buffer p.payload)

-- Encoding the structure of a packet that fits gives the packet's frame, with the longitudinal
-- check of the frame as its checksum, or 0 where the options tell to ignore it. The message keeps
-- that checksum. Only the allocation of the frame has to succeed.
pub encode-wire :
    (heap : Heap) (p : Packet) (old : ℕ)
    → IsPacket p
    → heap 0 ≡ true
    → encode heap (message_of p old)
      ≡ ok (wire p (packet_checksum p), message_of p (packet_checksum p))
encode-wire heap p old =
    encode-structure p (text_buffer p.origin) (text_buffer p.remote) (payload_buffer p.payload)
      (read_pointer-text_buffer p.origin) (read_pointer-text_buffer p.remote)
      (read_pointer-payload_buffer p.payload) heap old
