-- ===== src/Serializer/Sound.antt =====
-- Every frame that octopipes_decode accepts, whoever wrote it.
use liboctopipes.Prelude.{
  ℕ, zero, suc, ◌+◌, ◌<◌, ◌≡◌, refl, sym, ap, ◌∙◌, false, Bool, Option, some, [], ◌∷◌, ◌++◌, arith,
  length, drop, lt→ltb, ◌==◌, ==_iff, Bool-cases, inl, inr, ◌⊎◌, All, All-drop, All-append_left,
  subst, bit_and,
}
use native.Mathlib.Nat.{add-zero}
use liboctopipes.Types.{
  ok, >>=-Passes, require, require-ok, ok-injective, Bytes, Message, ignore_checksum, bad_checksum,
  bad_alloc,
}
use liboctopipes.Memory.{read_bytes, terminated}
use liboctopipes.Memory.Cursor.{read_bytes-split}
use liboctopipes.Serializer.{
  size_bytes, shift_in_all, read_size, copy_text, copy_payload, verify_checksum, calculate_checksum,
}
use liboctopipes.Serializer.Frame.{text_buffer, payload_buffer}

abbrev pub IsByte : ℕ → Type 0
IsByte b = b < 256

-- The eight bytes of a data size determine it, and it determines them.
size_bytes-shift_in_all :
    (bs : Bytes) → length bs ≡ 8 → All IsByte bs → size_bytes (shift_in_all 0 bs) ≡ bs
size_bytes-shift_in_all (a ∷ b ∷ c ∷ d ∷ e ∷ f ∷ g ∷ h ∷ []) n p = ground arith
size_bytes-shift_in_all _ n p = absurd (omega arith)

text_buffer-suc :
    (text : Bytes) (n : ℕ) → length text ≡ suc n → text_buffer text ≡ some (terminated text)
text_buffer-suc [] n h = absurd (omega arith)
text_buffer-suc (b ∷ bs) n h = refl

payload_buffer-suc :
    (bytes : Bytes) (n : ℕ) → length bytes ≡ suc n → payload_buffer bytes ≡ some bytes
payload_buffer-suc [] n h = absurd (omega arith)
payload_buffer-suc (b ∷ bs) n h = refl

pub copy_text-ok :
    (fits : Bool) (frame : Bytes) (at size : ℕ) {t : Option Bytes}
    → copy_text fits frame at size ≡ ok t
    → (text : Bytes) × (t ≡ text_buffer text)
      × (length text ≡ size)
      × (drop at frame ≡ text ++ drop (at + size) frame)
unfolding copy_text
copy_text-ok fits frame at zero h = ([], ground arith, refl, rw add-zero)
copy_text-ok fits frame at (suc n) h =
    let (_, _, h') =
      >>=-Passes (require fits bad_alloc) _ (rw (lt→ltb 0 (suc n) (omega arith)) at h) in
    let (text, read, done) = >>=-Passes (read_bytes frame at (suc n)) _ h' in
    let (split, size, _) = read_bytes-split frame at (suc n) read in
    (text, cc (done, text_buffer-suc text n size), size, split)

pub copy_payload-ok :
    (fits : Bool) (frame : Bytes) (at size : ℕ) {t : Option Bytes}
    → copy_payload fits frame at size ≡ ok t
    → (bytes : Bytes) × (t ≡ payload_buffer bytes)
      × (length bytes ≡ size)
      × (drop at frame ≡ bytes ++ drop (at + size) frame)
unfolding copy_payload
copy_payload-ok fits frame at zero h = ([], ground arith, refl, rw add-zero)
copy_payload-ok fits frame at (suc n) h =
    let (_, _, h') =
      >>=-Passes (require fits bad_alloc) _ (rw (lt→ltb 0 (suc n) (omega arith)) at h) in
    let (bytes, read, done) = >>=-Passes (read_bytes frame at (suc n)) _ h' in
    let (split, size, _) = read_bytes-split frame at (suc n) read in
    (bytes, cc (done, payload_buffer-suc bytes n size), size, split)

pub read_size-ok :
    (frame : Bytes) (at : ℕ) {n : ℕ}
    → All IsByte frame
    → read_size frame at ≡ ok n
    → drop at frame ≡ size_bytes n ++ drop (at + 8) frame
unfolding read_size
read_size-ok frame at bytes h =
    let (block, read, done) = >>=-Passes (read_bytes frame at 8) _ h in
    let (split, eight, _) = read_bytes-split frame at 8 read in
    split
    ∙ ap (λ b. b ++ drop (at + 8) frame)
        (sym (
            size_bytes-shift_in_all block eight (
              All-append_left IsByte block _
                (subst (All IsByte) split (All-drop IsByte at frame bytes))))
          ∙ ap size_bytes (ok-injective done))

-- A message passes the last check unchanged, with the sum that it carries or with the flag set.
pub verify_checksum-ok :
    (m : Message) {m' : Message}
    → verify_checksum m ≡ ok m'
    → (m' ≡ m)
      × (((bit_and m.options ignore_checksum == 0) ≡ false)
          ⊎ (calculate_checksum m ≡ ok m.checksum))
unfolding verify_checksum
verify_checksum-ok m h = elim (Bool-cases (bit_and m.options ignore_checksum == 0)) [
  | inr ignored ↦ (ok-injective (sym (rw ignored at h)), inl ignored)
  | inl used ↦
      let (sum, is_sum, h') = >>=-Passes (calculate_checksum m) _ (rw used at h) in
      let (_, same, done) = >>=-Passes (require (sum == m.checksum) bad_checksum) _ h' in
      (
        ok-injective (sym done),
        inr (is_sum ∙ ap ok ((==_iff sum m.checksum).0 (require-ok _ bad_checksum same))),
      )
]
