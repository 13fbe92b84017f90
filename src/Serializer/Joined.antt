-- ===== src/Serializer/Joined.antt =====
-- octopipes_decode on frames that one read has found joined.
use liboctopipes.Prelude.{
  ℕ, append-nil, ◌+◌, ◌-◌, ◌≡◌, sym, ap, ◌∙◌, true, List, [], ◌∷◌, ◌++◌, arith, le→leb, length,
  length-append, append_assoc, subst,
}
use liboctopipes.Types.{ok, Bytes, Heap}
use liboctopipes.Memory.{read_byte}
use liboctopipes.Serializer.{etx, decode}
use liboctopipes.Serializer.Frame.{Packet, IsPacket, message_of, wire, wire_header, packet_checksum}
use liboctopipes.Serializer.Encode.{length-wire}
use liboctopipes.Serializer.Decode.{
  IsRoomy, copy_payload-drop, drop_rest, decode-wire_header, read_byte_last,
}
use liboctopipes.Serializer.RoundTrip.{
  verify_checksum-message_of, checked-packet_checksum, wire-concat,
}

-- The frames of packets, one behind the other.
abbrev pub frames : List Packet → Bytes
frames [] = []
frames (q ∷ qs) = wire q (packet_checksum q) ++ frames qs

frames_closed :
    (q : Packet) (qs : List Packet) → (body : Bytes) × (frames (q ∷ qs) ≡ body ++ etx ∷ [])
frames_closed q [] = (
  wire_header q (length q.payload) (packet_checksum q) q.payload,
  append-nil (wire q (packet_checksum q)) ∙ sym (wire-concat q (packet_checksum q)),
)
frames_closed q (p ∷ qs) =
    let (body, e) = frames_closed p qs in
    (
      wire q (packet_checksum q) ++ body,
      ap (λ more. wire q (packet_checksum q) ++ more) e
          ∙ sym (append_assoc (wire q (packet_checksum q)) body (etx ∷ [])),
    )

wire-append :
    (q : Packet) (checksum : ℕ) (more : Bytes)
    → wire q checksum ++ more ≡ wire_header q (length q.payload) checksum (q.payload ++ etx ∷ more)
wire-append q checksum more = simp append_assoc

-- The first message alone comes out.
pub decode-frames :
    (heap : Heap) (q : Packet) (qs : List Packet)
    → IsPacket q
    → IsRoomy heap
    → heap 3 ≡ true
    → decode heap (frames (q ∷ qs)) ≡ ok (message_of q (packet_checksum q))
decode-frames heap q qs fits room room3 =
    let checksum = packet_checksum q in
    let rest : Bytes = q.payload ++ etx ∷ frames qs in
    let frame : Bytes = wire_header q (length q.payload) checksum rest in
    let same = wire-append q checksum (frames qs) in
    let (body, e) = frames_closed q qs in
    let closed : read_byte frame (length frame - 1) ≡ ok etx =
      subst (λ xs. read_byte xs (length xs - 1) ≡ ok etx) (sym e ∙ same)
        (read_byte_last body etx) in
    let size : length frame ≡ length (wire q checksum) + length (frames qs) =
      ap length (sym same) ∙ length-append (wire q checksum) (frames qs) in
    ap (decode heap) same
    ∙ decode-wire_header q (length q.payload) checksum rest heap room
        (omega (arith, fits.frame_fits)) (omega (arith, length-append q.payload (etx ∷ frames qs)))
        closed
    ∙ rw
        (
          le→leb (length q.payload) (length frame) (omega (arith, size, length-wire q checksum)),
          room3,
          copy_payload-drop frame (16 + length q.origin + length q.remote) q.payload
              (etx ∷ frames qs) (drop_rest q (length q.payload) checksum rest)
              (omega (arith, size, length-wire q checksum)),
        )
        (verify_checksum-message_of q checksum fits)
    ∙ checked-packet_checksum q
