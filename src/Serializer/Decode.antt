-- ===== src/Serializer/Decode.antt =====
-- What octopipes_decode makes of a frame.
use liboctopipes.Prelude.{
  ℕ, ◌+◌, ◌-◌, ◌≤◌, ◌<◌, ◌^◌, ◌≡◌, refl, sym, ap, ◌∙◌, true, [], ◌∷◌, ◌++◌, arith, leb, le→leb,
  length, drop, drop-drop, drop-append, length-append, lt→ltb,
}
use liboctopipes.Types.{
  Outcome, ok, fault, overread, bad_packet, ◌>>=◌, ◌>>◌, require, Bytes, Heap, Message, version_1,
}
use liboctopipes.Memory.{read_byte}
use liboctopipes.Memory.Cursor.{
  read_byte-drop, read_bytes-drop, read_bytes_over, drop_next, drop_block,
}
use liboctopipes.Serializer.{
  soh, stx, etx, size_bytes, decode, decode_v1, decode_tail, read_size, copy_text, copy_payload,
  verify_checksum, shift_in_all,
}
use liboctopipes.Serializer.Frame.{
  Packet, text_buffer, payload_buffer, message_of, wire_header, wire_tail,
}

pub shift_in_all-size_bytes : (n : ℕ) → n < 2 ^ 64 → shift_in_all 0 (size_bytes n) ≡ n
shift_in_all-size_bytes n h = omega arith

read_size-drop :
    (frame : Bytes) (at n : ℕ) (rest : Bytes)
    → drop at frame ≡ size_bytes n ++ rest
    → at ≤ length frame
    → n < 2 ^ 64
    → read_size frame at ≡ ok n
unfolding read_size
read_size-drop frame at n rest h le fits =
    rw (read_bytes-drop frame at (size_bytes n) rest h le) (ap ok (shift_in_all-size_bytes n fits))

-- The cursor of a later field.
drop_field :
    (frame : Bytes) (at k : ℕ) {rest : Bytes}
    → drop at frame ≡ rest
    → drop (at + k) frame ≡ drop k rest
drop_field frame at k h = sym (drop-drop at k frame) ∙ ap (drop k) h

copy_text-drop :
    (frame : Bytes) (at : ℕ) (text rest : Bytes)
    → drop at frame ≡ text ++ rest
    → at ≤ length frame
    → copy_text true frame at (length text) ≡ ok (text_buffer text)
unfolding copy_text
copy_text-drop frame at [] rest h le = refl
copy_text-drop frame at (b ∷ bs) rest h le =
    rw (read_bytes-drop frame at (b ∷ bs) rest h le, lt→ltb 0 (length (b ∷ bs)) (omega arith))

pub copy_payload-drop :
    (frame : Bytes) (at : ℕ) (bytes rest : Bytes)
    → drop at frame ≡ bytes ++ rest
    → at ≤ length frame
    → copy_payload true frame at (length bytes) ≡ ok (payload_buffer bytes)
unfolding copy_payload
copy_payload-drop frame at [] rest h le = refl
copy_payload-drop frame at (b ∷ bs) rest h le =
    rw (read_bytes-drop frame at (b ∷ bs) rest h le, lt→ltb 0 (length (b ∷ bs)) (omega arith))

-- What decode does with the data size once the header is read.
abbrev pub decode_payload : Heap → Bytes → Packet → ℕ → ℕ → ℕ → Outcome Message
decode_payload heap frame p size checksum at = do
  require (leb size (length frame)) bad_packet
  payload ← copy_payload (heap 3) frame at size
  verify_checksum (record (message_of p checksum) { data_size = size; payload = payload })

decode_tail-wire :
    (heap : Heap) (frame : Bytes) (p : Packet) (size checksum at : ℕ) (rest : Bytes)
    → drop at frame ≡ wire_tail p size checksum rest
    → at + 1 ≤ length frame
    → size < 2 ^ 64
    → decode_tail heap frame
        (length p.origin)
        (text_buffer p.origin)
        (length p.remote)
        (text_buffer p.remote)
        at
      ≡ decode_payload heap frame p size checksum (at + 12)
unfolding decode_tail
decode_tail-wire heap frame p size checksum at rest h le fits = rw (
  read_byte-drop frame at p.ttl h,
  read_size-drop frame (at + 1) size _ (drop_field frame at 1 h) le fits,
  read_byte-drop frame (at + 9) p.options (drop_field frame at 9 h),
  read_byte-drop frame (at + 10) checksum (drop_field frame at 10 h),
  read_byte-drop frame (at + 11) stx (drop_field frame at 11 h),
)

pub length-wire_header :
    (p : Packet) (size checksum : ℕ) (rest : Bytes)
    → length (wire_header p size checksum rest)
      ≡ 16 + length p.origin + length p.remote + length rest
length-wire_header p size checksum rest = simp length-append (omega arith)

abbrev pub IsRoomy : Heap → Type 0
IsRoomy heap = (heap 0 ≡ true) × (heap 1 ≡ true) × (heap 2 ≡ true)

module _ (p : Packet) (size checksum : ℕ) (rest : Bytes) where
  abbrev pub frame : Bytes
  frame = wire_header p size checksum rest

  drop_remote_size :
      drop (3 + length p.origin) frame
      ≡ length p.remote ∷ (p.remote ++ wire_tail p size checksum rest)
  drop_remote_size = drop_block frame 3 p.origin _ refl

  drop_remote : drop (4 + length p.origin) frame ≡ p.remote ++ wire_tail p size checksum rest
  drop_remote =
      ap (λ k. drop k frame) {x = 4 + length p.origin} {y = 3 + length p.origin + 1} (omega arith)
      ∙ drop_next frame (3 + length p.origin) _ drop_remote_size

  drop_tail : drop (4 + length p.origin + length p.remote) frame ≡ wire_tail p size checksum rest
  drop_tail = drop_block frame (4 + length p.origin) p.remote _ drop_remote

  decode_v1-wire_header :
      (heap : Heap)
      → IsRoomy heap
      → size < 2 ^ 64
      → 1 ≤ length rest
      → decode_v1 heap frame
        ≡ decode_payload heap frame p size checksum (16 + length p.origin + length p.remote)
  unfolding decode_v1
  decode_v1-wire_header heap (room0, room1, room2) fits last =
      rw
        (
          read_byte-drop frame 2 (length p.origin) refl,
          room1,
          le→leb (17 + length p.origin) (length frame)
              (omega (arith, length-wire_header p size checksum rest)),
          copy_text-drop frame 3 p.origin _ refl
              (omega (arith, length-wire_header p size checksum rest)),
          read_byte-drop frame (3 + length p.origin) (length p.remote) drop_remote_size,
          room2,
          le→leb (17 + length p.origin + length p.remote) (length frame)
              (omega (arith, length-wire_header p size checksum rest)),
          copy_text-drop frame (4 + length p.origin) p.remote _ drop_remote
              (omega (arith, length-wire_header p size checksum rest)),
          decode_tail-wire heap frame p size checksum (4 + length p.origin + length p.remote) rest
              drop_tail (omega (arith, length-wire_header p size checksum rest)) fits,
        )
        (ap (decode_payload heap frame p size checksum)
          {x = 4 + length p.origin + length p.remote + 12}
          {y = 16 + length p.origin + length p.remote} (omega arith))

  -- The payload begins behind the start-of-text byte.
  pub drop_rest : drop (16 + length p.origin + length p.remote) frame ≡ rest
  drop_rest =
      ap (λ k. drop k frame) {x = 16 + length p.origin + length p.remote}
        {y = 4 + length p.origin + length p.remote + 12} (omega arith)
      ∙ drop_field frame (4 + length p.origin + length p.remote) 12 drop_tail

  -- The header checks of decode pass on such a frame, if its last byte is ETX.
  pub decode-wire_header :
      (heap : Heap)
      → IsRoomy heap
      → size < 2 ^ 64
      → 1 ≤ length rest
      → read_byte frame (length frame - 1) ≡ ok etx
      → decode heap frame
        ≡ decode_payload heap frame p size checksum (16 + length p.origin + length p.remote)
  unfolding decode
  decode-wire_header heap room fits last closed =
      rw
        (
          room.0,
          le→leb 17 (length frame) (omega (arith, length-wire_header p size checksum rest)),
          read_byte-drop frame 0 soh refl,
          closed,
          read_byte-drop frame 1 version_1 refl,
        )
        (decode_v1-wire_header heap room fits last)

  -- A frame that announces more payload than it holds, though no more than its whole length, passes
  -- every check; the copy of the payload then reads past the end of the buffer.
  pub decode_overread :
      (heap : Heap)
      → IsRoomy heap
      → heap 3 ≡ true
      → size < 2 ^ 64
      → 1 ≤ length rest
      → length rest < size
      → size ≤ length frame
      → read_byte frame (length frame - 1) ≡ ok etx
      → decode heap frame ≡ fault overread
  unfolding copy_payload
  decode_overread heap room room3 fits last over within closed =
      decode-wire_header heap room fits last closed
      ∙ rw (
        le→leb size (length frame) within,
        room3,
        lt→ltb 0 size (omega arith),
        read_bytes_over frame (16 + length p.origin + length p.remote) size
            (omega (arith, length-wire_header p size checksum rest)),
      )

pub read_byte_last :
    (xs : Bytes) (b : ℕ) → read_byte (xs ++ b ∷ []) (length (xs ++ b ∷ []) - 1) ≡ ok b
read_byte_last xs b = read_byte-drop (xs ++ b ∷ []) _ b (
    ap (λ k. drop k (xs ++ b ∷ [])) {x = length (xs ++ b ∷ []) - 1} {y = length xs}
      (omega (arith, length-append xs (b ∷ [])))
    ∙ drop-append xs (b ∷ []))
