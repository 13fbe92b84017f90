-- ===== src/Serializer/RoundTrip.antt =====
-- octopipes_decode on the frames that octopipes_encode writes, and on the same frames with any other
-- checksum.
use liboctopipes.Prelude.{
  ℕ, ◌+◌, ◌-◌, ◌≡◌, ◌∙◌, true, [], ◌∷◌, ◌++◌, arith, le→leb, length, length-append, if◌then◌else◌,
  ◌==◌, ==_refl, Bool-cases, inl, inr, append_assoc, subst, bit_and,
}
use liboctopipes.Types.{Outcome, ok, err, bad_checksum, ◌>>=◌, Heap, Message, ignore_checksum}
use liboctopipes.Memory.{read_byte}
use liboctopipes.Serializer.{etx, decode, encode, verify_checksum}
use liboctopipes.Serializer.Frame.{
  Packet, IsPacket, message_of, wire, wire_header, wire_sum, packet_checksum,
}
use liboctopipes.Serializer.Encode.{calculate_checksum-message_of, encode-wire, length-wire}
use liboctopipes.Serializer.Decode.{
  IsRoomy, copy_payload-drop, drop_rest, decode-wire_header, read_byte_last,
}

pub wire-concat :
    (p : Packet) (checksum : ℕ)
    → wire_header p (length p.payload) checksum p.payload ++ etx ∷ [] ≡ wire p checksum
wire-concat p checksum = simp append_assoc

wire_closed :
    (p : Packet) (checksum : ℕ)
    → read_byte (wire p checksum) (length (wire p checksum) - 1) ≡ ok etx
wire_closed p checksum =
    subst (λ xs. read_byte xs (length xs - 1) ≡ ok etx) (wire-concat p checksum)
      (read_byte_last (wire_header p (length p.payload) checksum p.payload) etx)

-- What becomes of a message with this checksum, by its options.
abbrev pub checked : Packet → ℕ → Outcome Message
checked p checksum =
    if bit_and p.options ignore_checksum == 0
    then (if wire_sum p == checksum then ok (message_of p checksum) else err bad_checksum)
    else ok (message_of p checksum)

pub verify_checksum-message_of :
    (p : Packet) (checksum : ℕ)
    → IsPacket p
    → verify_checksum (message_of p checksum) ≡ checked p checksum
unfolding verify_checksum
verify_checksum-message_of p checksum fits =
    elim (Bool-cases (bit_and p.options ignore_checksum == 0)) [
      | inl used ↦
          rw (used, calculate_checksum-message_of p checksum fits.options_fits)
            (elim (Bool-cases (wire_sum p == checksum)) [
              | inl same ↦ rw same
              | inr differs ↦ rw differs
            ])
      | inr ignored ↦ rw ignored
    ]

-- On the frame of a packet, whatever checksum it carries, decode delivers the packet's message
-- if the checksum is the frame's longitudinal check or the options tell to ignore it, and
-- BAD_CHECKSUM otherwise. The allocations are assumed to succeed.
pub decode-wire :
    (heap : Heap) (p : Packet) (checksum : ℕ)
    → IsPacket p
    → IsRoomy heap
    → heap 3 ≡ true
    → decode heap (wire p checksum) ≡ checked p checksum
decode-wire heap p checksum fits room room3 =
    decode-wire_header p (length p.payload) checksum (p.payload ++ etx ∷ []) heap room
      (omega (arith, fits.frame_fits)) (omega (arith, length-append p.payload (etx ∷ [])))
      (wire_closed p checksum)
    ∙ rw
        (
          le→leb (length p.payload) (length (wire p checksum))
              (omega (arith, length-wire p checksum)),
          room3,
          copy_payload-drop (wire p checksum) (16 + length p.origin + length p.remote) p.payload
              (etx ∷ []) (drop_rest p (length p.payload) checksum (p.payload ++ etx ∷ []))
              (omega (arith, length-wire p checksum)),
        )
        (verify_checksum-message_of p checksum fits)

-- The checksum that encode chooses is accepted.
pub checked-packet_checksum :
    (p : Packet) → checked p (packet_checksum p) ≡ ok (message_of p (packet_checksum p))
checked-packet_checksum p = elim (Bool-cases (bit_and p.options ignore_checksum == 0)) [
  | inl used ↦ rw (used, ==_refl (wire_sum p))
  | inr ignored ↦ rw ignored
]

-- What encode wrote decode reads back: the same message, with the checksum that encode put into it.
-- The packet has to fit the fields of a frame, and the allocations have to succeed.
pub decode-encode :
    (heap : Heap) (p : Packet) (old : ℕ)
    → IsPacket p
    → IsRoomy heap
    → heap 3 ≡ true
    → (encode heap (message_of p old) >>= λ sent. decode heap sent.0)
      ≡ (encode heap (message_of p old) >>= λ sent. ok sent.1)
decode-encode heap p old fits room room3 =
    rw (encode-wire heap p old fits room.0)
      (decode-wire heap p (packet_checksum p) fits room room3 ∙ checked-packet_checksum p)
