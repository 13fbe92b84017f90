-- ===== src/Serializer/Checksum.antt =====
-- What the checksum of a frame is worth.
use liboctopipes.Prelude.{
  ℕ, suc, ◌+◌, ◌≡◌, ◌≢◌, sym, ap, ◌∙◌, true, [], ◌∷◌, ◌++◌, arith, length, length-append, ◌==◌,
  ==_iff, append_assoc, Bool-cases, inl, inr, bit_and, bit_xor, zero-bit_xor, bit_xor-zero,
  bit_xor_assoc, bit_xor_comm, bit_xor_self,
}
use liboctopipes.Types.{ok, err, bad_checksum, ◌>>=◌, Bytes, Heap, version_1, ignore_checksum}
use liboctopipes.Serializer.{soh, stx, etx, size_bytes, xor_bytes, encode, decode}
use liboctopipes.Serializer.Frame.{Packet, IsPacket, message_of, wire, wire_sum, packet_checksum}
use liboctopipes.Serializer.Encode.{encode-wire, xor_bytes-append}
use liboctopipes.Serializer.Decode.{IsRoomy}
use liboctopipes.Serializer.RoundTrip.{checked, decode-wire}

-- The accumulator can be split off.
xor_bytes-acc : (acc : ℕ) (bs : Bytes) → xor_bytes acc bs ≡ bit_xor acc (xor_bytes 0 bs)
xor_bytes-acc acc [] = sym (bit_xor-zero acc)
xor_bytes-acc acc (b ∷ bs) =
    xor_bytes-acc (bit_xor acc b) bs
    ∙ bit_xor_assoc acc b (xor_bytes 0 bs)
    ∙ ap (bit_xor acc) (
        ap (λ t. bit_xor t (xor_bytes 0 bs)) (sym (zero-bit_xor b))
        ∙ sym (xor_bytes-acc (bit_xor 0 b) bs))

-- One byte among others.
xor_bytes-middle :
    (front back : Bytes) (b : ℕ)
    → xor_bytes 0 (front ++ b ∷ back) ≡ bit_xor (xor_bytes 0 (front ++ back)) b
xor_bytes-middle front back b =
    xor_bytes-append front (b ∷ back) 0
    ∙ xor_bytes-acc (bit_xor (xor_bytes 0 front) b) back
    ∙ swap_last (xor_bytes 0 front) b (xor_bytes 0 back)
    ∙ ap (λ t. bit_xor t b)
        (sym (xor_bytes-acc (xor_bytes 0 front) back) ∙ sym (xor_bytes-append front back 0))
  where
    swap_last : (x y z : ℕ) → bit_xor (bit_xor x y) z ≡ bit_xor (bit_xor x z) y
    swap_last x y z =
        bit_xor_assoc x y z ∙ ap (bit_xor x) (bit_xor_comm y z) ∙ sym (bit_xor_assoc x z y)

-- The bytes of a frame before its checksum, and those behind it.
abbrev before_checksum : Packet → Bytes
before_checksum p =
    soh
    ∷ version_1
    ∷ length p.origin
    ∷ (p.origin
        ++ (length p.remote
            ∷ (p.remote ++ (p.ttl ∷ (size_bytes (length p.payload) ++ (p.options ∷ []))))))

wire-split :
    (p : Packet) (checksum : ℕ)
    → wire p checksum ≡ before_checksum p ++ checksum ∷ (stx ∷ (p.payload ++ etx ∷ []))
wire-split p checksum = simp append_assoc

xor-wire :
    (p : Packet) (checksum : ℕ) → xor_bytes 0 (wire p checksum) ≡ bit_xor (wire_sum p) checksum
xor-wire p checksum =
    let rest : Bytes = stx ∷ (p.payload ++ etx ∷ []) in
    let plain : xor_bytes 0 (before_checksum p ++ rest) ≡ wire_sum p =
      sym (bit_xor-zero _)
      ∙ sym (xor_bytes-middle (before_checksum p) rest 0)
      ∙ ap (xor_bytes 0) (sym (wire-split p 0)) in
    ap (xor_bytes 0) (wire-split p checksum)
    ∙ xor_bytes-middle (before_checksum p) rest checksum
    ∙ ap (λ t. bit_xor t checksum) plain

packet_checksum-used :
    (p : Packet) → bit_and p.options ignore_checksum ≡ 0 → packet_checksum p ≡ wire_sum p
packet_checksum-used p e = rw e

checked-ne :
    (p : Packet) (checksum : ℕ)
    → bit_and p.options ignore_checksum ≡ 0
    → wire_sum p ≢ checksum
    → checked p checksum ≡ err bad_checksum
checked-ne p checksum used differs = rw used (elim (Bool-cases (wire_sum p == checksum)) [
  | inl same ↦ absurd (differs ((==_iff (wire_sum p) checksum).0 same))
  | inr ne ↦ rw ne
])

-- The exclusive or of all bytes that encode writes is 0, unless the options tell to ignore the
-- checksum. The packet has to fit the fields of a frame, and the allocation to succeed.
pub xor-encode :
    (heap : Heap) (p : Packet) (old : ℕ)
    → IsPacket p
    → heap 0 ≡ true
    → bit_and p.options ignore_checksum ≡ 0
    → (encode heap (message_of p old) >>= λ sent. ok (xor_bytes 0 sent.0)) ≡ ok 0
xor-encode heap p old fits room used = rw (encode-wire heap p old fits room) (
    ap ok (
      ap (λ c. xor_bytes 0 (wire p c)) (packet_checksum-used p used)
      ∙ xor-wire p (wire_sum p)
      ∙ bit_xor_self (wire_sum p)))

bit_xor-cancel : (x a b : ℕ) → bit_xor x a ≡ bit_xor x b → a ≡ b
bit_xor-cancel x a b h = undo a ∙ ap (bit_xor x) h ∙ sym (undo b)
  where
    undo : (y : ℕ) → y ≡ bit_xor x (bit_xor x y)
    undo y =
        sym (zero-bit_xor y) ∙ ap (λ t. bit_xor t y) (sym (bit_xor_self x)) ∙ bit_xor_assoc x x y

-- A frame around one byte of its payload.
abbrev before_byte : Packet → ℕ → Bytes → Bytes
before_byte p size front =
    soh
    ∷ version_1
    ∷ length p.origin
    ∷ (p.origin
        ++ (length p.remote
            ∷ (p.remote ++ (p.ttl ∷ (size_bytes size ++ (p.options ∷ 0 ∷ stx ∷ front))))))

wire-split_payload :
    (p : Packet) (front back : Bytes) (b : ℕ)
    → wire (record p { payload = front ++ b ∷ back }) 0
      ≡ before_byte p (length front + suc (length back)) front ++ b ∷ (back ++ etx ∷ [])
wire-split_payload p front back b = simp (length-append, append_assoc)

-- Frames of packets that differ in one byte of the payload have different sums.
wire_sum-ne :
    (p : Packet) (front back : Bytes) (b b' : ℕ)
    → b ≢ b'
    → wire_sum (record p { payload = front ++ b ∷ back })
      ≢ wire_sum (record p { payload = front ++ b' ∷ back })
wire_sum-ne p front back b b' differs same =
    differs (bit_xor-cancel _ b b' (sym (middle b) ∙ same ∙ middle b'))
  where
    middle :
        (c : ℕ)
        → wire_sum (record p { payload = front ++ c ∷ back })
          ≡ bit_xor
              (xor_bytes 0
                (before_byte p (length front + suc (length back)) front ++ (back ++ etx ∷ [])))
              c
    middle c =
        ap (xor_bytes 0) (wire-split_payload p front back c)
        ∙ xor_bytes-middle (before_byte p (length front + suc (length back)) front)
            (back ++ etx ∷ []) c

-- A frame in which one byte of the payload was changed on the way is refused with BAD_CHECKSUM,
-- unless its options tell to ignore the checksum. The packet has to fit the fields of a frame, and
-- the allocations to succeed.
pub decode_corrupted_payload :
    (heap : Heap) (p : Packet) (front back : Bytes) (b b' : ℕ)
    → IsPacket (record p { payload = front ++ b ∷ back })
    → IsRoomy heap
    → heap 3 ≡ true
    → bit_and p.options ignore_checksum ≡ 0
    → b ≢ b'
    → decode heap (
        wire
          (record p { payload = front ++ b' ∷ back })
          (packet_checksum (record p { payload = front ++ b ∷ back })))
      ≡ err bad_checksum
decode_corrupted_payload heap p front back b b' fits room room3 used differs =
    let sent : Packet = record p { payload = front ++ b ∷ back } in
    let got : Packet = record p { payload = front ++ b' ∷ back } in
    decode-wire heap got (packet_checksum sent) (resized fits) room room3
    ∙ ap (checked got) (packet_checksum-used sent used)
    ∙ checked-ne got (wire_sum sent) used (λ e. wire_sum-ne p front back b b' differs (sym e))
  where
    resized :
        IsPacket (record p { payload = front ++ b ∷ back })
        → IsPacket (record p { payload = front ++ b' ∷ back })
    resized f = record {
      origin_fits = f.origin_fits;
      remote_fits = f.remote_fits;
      options_fits = f.options_fits;
      frame_fits =
          omega
            (arith, f.frame_fits, length-append front (b ∷ back), length-append front (b' ∷ back));
    }
