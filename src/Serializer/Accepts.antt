-- ===== src/Serializer/Accepts.antt =====
-- Every frame that octopipes_decode accepts, whoever wrote it, is the frame of a packet.
use liboctopipes.Prelude.{
  ℕ, ◌+◌, ◌-◌, ◌<◌, ◌≡◌, sym, ap, ap₂, ◌∙◌, true, false, Option, ◌∷◌, ◌++◌, arith, leb, ◌&&◌,
  length, drop, if◌then◌else◌, ◌==◌, Bool-cases, inl, inr, ◌⊎◌, All, bit_and,
}
use liboctopipes.Types.{
  ok, err, >>=-Passes, require, require-ok, ok-injective, Bytes, Heap, Message, version_1,
  ignore_checksum, bad_packet, unsupported_version, bad_alloc,
}
use liboctopipes.Memory.{read_byte}
use liboctopipes.Serializer.{
  soh, etx, decode, decode_v1, decode_tail, copy_text, calculate_checksum,
}
use liboctopipes.Serializer.Frame.{Packet, message_of, text_buffer, wire_header, wire_sum}
use liboctopipes.Serializer.Encode.{calculate_checksum-message_of}
use liboctopipes.Serializer.Sound.{IsByte, copy_text-ok, verify_checksum-ok}
use liboctopipes.Serializer.Tail.{read_byte-next, Tail, decode_tail-ok}

module _ (frame : Bytes) where
  abbrev Header : Message → Type 0
  Header m =
      (origin : Bytes) × (remote : Bytes) × (drop 2 frame
        ≡ length origin
          ∷ (origin
              ++ (length remote ∷ (remote ++ drop (4 + length origin + length remote) frame))))
      × Tail frame origin remote (4 + length origin + length remote) m

  -- A text that a copy took from the frame.
  abbrev Copied : ℕ → ℕ → Option Bytes → Type 0
  Copied at size t =
      (text : Bytes) × (t ≡ text_buffer text)
      × (length text ≡ size)
      × (drop at frame ≡ text ++ drop (at + size) frame)

  Header-ok :
      (heap : Heap) {m : Message} (origin_size remote_size : ℕ) (o r : Option Bytes)
      → All IsByte frame
      → read_byte frame 2 ≡ ok origin_size
      → Copied 3 origin_size o
      → read_byte frame (3 + origin_size) ≡ ok remote_size
      → Copied (4 + origin_size) remote_size r
      → decode_tail heap frame origin_size o remote_size r (4 + origin_size + remote_size) ≡ ok m
      → Header m
  Header-ok heap {m} origin_size remote_size o r bytes e1 (origin, eo, lo, so) e2
        (remote, er, lr, sr) h =
      (
        origin,
        remote,
        read_byte-next frame 2 3 (omega arith) e1
            ∙ ap₂ ◌∷◌ (sym lo) (
                so
                ∙ ap (◌++◌ origin) (
                    read_byte-next frame (3 + origin_size) (4 + origin_size) (omega arith) e2
                    ∙ ap₂ ◌∷◌ (sym lr)
                        (sr ∙ ap₂ (λ a b. remote ++ drop (4 + a + b) frame) (sym lo) (sym lr)))),
        decode_tail-ok frame heap origin remote (4 + length origin + length remote) bytes (
            (λ i. decode_tail heap frame (lo i) (sym eo i) (lr i) (sym er i) (4 + lo i + lr i))
            ∙ h),
      )

  decode_v1-ok :
      (heap : Heap) {m : Message} → All IsByte frame → decode_v1 heap frame ≡ ok m → Header m
  unfolding decode_v1
  decode_v1-ok heap bytes h0 =
      let (origin_size, e1, h1) = >>=-Passes (read_byte frame 2) _ h0 in
      let (_, _, h2) =
        >>=-Passes (require (leb (17 + origin_size) (length frame)) bad_packet) _ h1 in
      let (o, e3, h3) = >>=-Passes (copy_text (heap 1) frame 3 origin_size) _ h2 in
      let (remote_size, e4, h4) = >>=-Passes (read_byte frame (3 + origin_size)) _ h3 in
      let (_, _, h5) =
        >>=-Passes (require (leb (17 + origin_size + remote_size) (length frame)) bad_packet) _
          h4 in
      let (r, e6, h6) = >>=-Passes (copy_text (heap 2) frame (4 + origin_size) remote_size) _ h5 in
      Header-ok heap origin_size remote_size o r bytes e1
        (copy_text-ok (heap 1) frame 3 origin_size e3) e4
        (copy_text-ok (heap 2) frame (4 + origin_size) remote_size e6) h6

-- The frame of a packet, with anything behind the payload up to a last byte ETX.
pub record Accepted (frame : Bytes) (m : Message) : Type 0 where
  pub packet : Packet
  pub rest : Bytes
  pub is_frame :
      frame ≡ wire_header packet (length packet.payload) m.checksum (packet.payload ++ rest)
  pub is_closed : read_byte frame (length frame - 1) ≡ ok etx
  pub is_message : m ≡ message_of packet m.checksum
  pub is_checked :
      ((bit_and packet.options ignore_checksum == 0) ≡ false) ⊎ (m.checksum ≡ wire_sum packet)

accepted :
    (frame : Bytes) {m : Message}
    → frame ≡ soh ∷ version_1 ∷ drop 2 frame
    → read_byte frame (length frame - 1) ≡ ok etx
    → Header frame m
    → Accepted frame m
accepted frame {m} starts closed (origin, remote, split, t) =
    let p : Packet = record {
      origin = origin;
      remote = remote;
      ttl = t.ttl;
      options = t.options;
      payload = t.bytes;
    } in
    let (same, checked) = verify_checksum-ok (message_of p t.checksum) t.delivered in
    let rest : Bytes = drop (4 + length origin + length remote + 12 + length t.bytes) frame in
    let sum : m.checksum ≡ t.checksum = ap (λ n. n.checksum) same in
    record {
      packet = p;
      rest = rest;
      is_frame =
          starts
          ∙ ap (λ xs. soh ∷ version_1 ∷ xs)
              (split
                ∙ ap (λ xs. length origin ∷ (origin ++ (length remote ∷ (remote ++ xs)))) t.stands)
          ∙ ap (λ c. wire_header p (length p.payload) c (p.payload ++ rest)) (sym sum);
      is_closed = closed;
      is_message = same ∙ ap (message_of p) (sym sum);
      is_checked = is_checked p t.checksum m.checksum t.options_fit sum checked;
    }
  where
    is_checked :
        (p : Packet) (c c' : ℕ)
        → p.options < 256
        → c' ≡ c
        → ((bit_and p.options ignore_checksum == 0) ≡ false)
          ⊎ (calculate_checksum (message_of p c) ≡ ok c)
        → ((bit_and p.options ignore_checksum == 0) ≡ false) ⊎ (c' ≡ wire_sum p)
    is_checked p c c' fit e (inl ignored) = inl ignored
    is_checked p c c' fit e (inr summed) =
        inr (e ∙ ok-injective (sym summed ∙ calculate_checksum-message_of p c fit))

decode_finish :
    (heap : Heap) (frame : Bytes) (first last version : ℕ) {m : Message}
    → All IsByte frame
    → read_byte frame 0 ≡ ok first
    → read_byte frame (length frame - 1) ≡ ok last
    → (first == soh && last == etx) ≡ true
    → read_byte frame 1 ≡ ok version
    → (if version == version_1 then decode_v1 heap frame else err unsupported_version) ≡ ok m
    → Accepted frame m
decode_finish heap frame first last version bytes e3 e4 e5 e6 h =
    elim (Bool-cases (version == version_1)) [
      | inr other ↦ cc (rw other at h)
      | inl one ↦
          let starts : first ≡ soh = ground arith in
          let ends : last ≡ etx = ground arith in
          let is_one : version ≡ version_1 = ground arith in
          accepted frame
            (read_byte-next frame 0 1 (omega arith) e3
              ∙ ap₂ ◌∷◌ starts
                  (read_byte-next frame 1 2 (omega arith) e6 ∙ ap (λ v. v ∷ drop 2 frame) is_one))
            (e4 ∙ ap ok ends) (decode_v1-ok frame heap bytes (rw one at h))
    ]

-- Whatever decode accepts is the frame of a packet: the fields that it stores are those of the
-- frame, the last byte is ETX, and the checksum is the longitudinal check of the packet's frame
-- unless the options tell to ignore it. Bytes behind the payload are not looked at.
pub decode-Accepted :
    (heap : Heap) (frame : Bytes) {m : Message}
    → All IsByte frame
    → decode heap frame ≡ ok m
    → Accepted frame m
unfolding decode
decode-Accepted heap frame bytes h0 =
    let (_, _, h1) = >>=-Passes (require (heap 0) bad_alloc) _ h0 in
    let (_, _, h2) = >>=-Passes (require (leb 17 (length frame)) bad_packet) _ h1 in
    let (first, e3, h3) = >>=-Passes (read_byte frame 0) _ h2 in
    let (last, e4, h4) = >>=-Passes (read_byte frame (length frame - 1)) _ h3 in
    let (_, e5, h5) = >>=-Passes (require (first == soh && last == etx) bad_packet) _ h4 in
    let (version, e6, h6) = >>=-Passes (read_byte frame 1) _ h5 in
    decode_finish heap frame first last version bytes e3 e4 (require-ok _ bad_packet e5) e6 h6
