-- ===== src/Serializer/Tail.antt =====
-- The fields behind the remote of a frame that octopipes_decode accepts.
use liboctopipes.Prelude.{
  ℕ, ◌+◌, ◌<◌, ◌≡◌, refl, sym, ap, ap₂, ◌∙◌, true, Option, ◌∷◌, ◌++◌, arith, leb, length, drop,
  ◌==◌, ==_iff, All, All-drop, subst,
}
use liboctopipes.Types.{ok, >>=-Passes, require, require-ok, Bytes, Heap, Message, bad_packet}
use liboctopipes.Memory.{read_byte}
use liboctopipes.Memory.Cursor.{read_byte-ok}
use liboctopipes.Serializer.{stx, size_bytes, read_size, decode_tail, copy_payload, verify_checksum}
use liboctopipes.Serializer.Frame.{Packet, message_of, text_buffer, payload_buffer}
use liboctopipes.Serializer.Sound.{IsByte, copy_payload-ok, read_size-ok}

module _ (frame : Bytes) where
  pub read_byte-next :
      (i j : ℕ) {b : ℕ} → j ≡ i + 1 → read_byte frame i ≡ ok b → drop i frame ≡ b ∷ drop j frame
  read_byte-next i j e h = rw e ((read_byte-ok frame i h).0)

  pub read_byte-IsByte : (i : ℕ) {b : ℕ} → All IsByte frame → read_byte frame i ≡ ok b → IsByte b
  read_byte-IsByte i bytes h =
      (subst (All IsByte) ((read_byte-ok frame i h).0) (All-drop IsByte i frame bytes)).0

  -- What stands at the cursor behind the remote, and the message that came of it.
  pub record Tail (origin remote : Bytes) (at : ℕ) (m : Message) : Type 0 where
    pub ttl : ℕ
    pub options : ℕ
    pub options_fit : options < 256
    pub checksum : ℕ
    pub bytes : Bytes
    pub stands :
        drop at frame
        ≡ ttl
          ∷ (size_bytes (length bytes)
              ++ (options ∷ checksum ∷ stx ∷ (bytes ++ drop (at + 12 + length bytes) frame)))
    pub delivered :
        verify_checksum (
          message_of
            (record {
              origin = origin;
              remote = remote;
              ttl = ttl;
              options = options;
              payload = bytes;
            })
            checksum)
        ≡ ok m

  tail_stands :
      (at ttl size options checksum marker : ℕ) (block : Bytes)
      → read_byte frame at ≡ ok ttl
      → drop (at + 1) frame ≡ size_bytes size ++ drop (at + 1 + 8) frame
      → read_byte frame (at + 9) ≡ ok options
      → read_byte frame (at + 10) ≡ ok checksum
      → read_byte frame (at + 11) ≡ ok marker
      → (marker == stx) ≡ true
      → length block ≡ size
      → drop (at + 12) frame ≡ block ++ drop (at + 12 + size) frame
      → drop at frame
        ≡ ttl
          ∷ (size_bytes (length block)
              ++ (options ∷ checksum ∷ stx ∷ (block ++ drop (at + 12 + length block) frame)))
  tail_stands at ttl size options checksum marker block e1 e2 e3 e4 e5 e6 len e7 =
      read_byte-next at (at + 1) refl e1
      ∙ ap (◌∷◌ ttl) (
          e2
          ∙ ap₂ (λ n rest. size_bytes n ++ rest) (sym len)
              (ap (λ k. drop k frame) {x = at + 1 + 8} {y = at + 9} (omega arith)
                ∙ read_byte-next (at + 9) (at + 10) (omega arith) e3
                ∙ ap (◌∷◌ options) (
                    read_byte-next (at + 10) (at + 11) (omega arith) e4
                    ∙ ap (◌∷◌ checksum) (
                        read_byte-next (at + 11) (at + 12) (omega arith) e5
                        ∙ ap₂ ◌∷◌ ((==_iff marker stx).0 e6)
                            (e7 ∙ ap (λ n. block ++ drop (at + 12 + n) frame) (sym len))))))

  tail_delivered :
      (p : Packet) (size checksum : ℕ) (payload : Option Bytes) {m : Message}
      → payload ≡ payload_buffer p.payload
      → length p.payload ≡ size
      → verify_checksum (record (message_of p checksum) { data_size = size; payload = payload })
        ≡ ok m
      → verify_checksum (message_of p checksum) ≡ ok m
  tail_delivered p size checksum payload e len h =
      ap₂ (λ n b. verify_checksum (record (message_of p checksum) { data_size = n; payload = b }))
        len (sym e)
      ∙ h

  pub decode_tail-ok :
      (heap : Heap) (origin remote : Bytes) (at : ℕ) {m : Message}
      → All IsByte frame
      → decode_tail heap frame
          (length origin)
          (text_buffer origin)
          (length remote)
          (text_buffer remote)
          at
        ≡ ok m
      → Tail origin remote at m
  unfolding decode_tail
  decode_tail-ok heap origin remote at {m} bytes h0 =
      let (ttl, e1, h1) = >>=-Passes (read_byte frame at) _ h0 in
      let (size, e2, h2) = >>=-Passes (read_size frame (at + 1)) _ h1 in
      let (options, e3, h3) = >>=-Passes (read_byte frame (at + 9)) _ h2 in
      let (checksum, e4, h4) = >>=-Passes (read_byte frame (at + 10)) _ h3 in
      let (marker, e5, h5) = >>=-Passes (read_byte frame (at + 11)) _ h4 in
      let (_, e6, h6) = >>=-Passes (require (marker == stx) bad_packet) _ h5 in
      let (_, _, h7) = >>=-Passes (require (leb size (length frame)) bad_packet) _ h6 in
      let (payload, e8, h8) = >>=-Passes (copy_payload (heap 3) frame (at + 12) size) _ h7 in
      let (block, e9, e10, e11) = copy_payload-ok (heap 3) frame (at + 12) size e8 in
      record {
        ttl = ttl;
        options = options;
        options_fit = read_byte-IsByte (at + 9) bytes e3;
        checksum = checksum;
        bytes = block;
        stands =
            tail_stands at ttl size options checksum marker block e1
              (read_size-ok frame (at + 1) bytes e2) e3 e4 e5 (require-ok _ bad_packet e6) e10 e11;
        delivered =
            tail_delivered
              (record {
                origin = origin;
                remote = remote;
                ttl = ttl;
                options = options;
                payload = block;
              })
              size checksum payload e9 e10 h8;
      }
