-- ===== src/Memory/Cursor.antt =====
-- Reads of a frame at a cursor: what lies behind position `i` is `drop i frame`.
use liboctopipes.Prelude.{
  ℕ, zero, suc, ◌+◌, ◌≤◌, ◌<◌, ◌≡◌, refl, sym, ap, ◌∙◌, some, [], ◌∷◌, ◌++◌, arith, le→leb,
  lt→not_leb, length, get_elem?, get_elem?-some, take, drop, drop-drop, length-append, length-drop,
  take-append, drop-append, take-length, length-take, take-append-drop, ap₂,
}
use liboctopipes.Types.{ok, fault, overread, Bytes}
use liboctopipes.Memory.{read_byte, read_bytes, read_pointer}
use native.Mathlib.Nat.{zero-add}
use native.Mathlib.Numerals.{add-one}

get_elem?-drop :
    (frame : Bytes) (i b : ℕ) {rest : Bytes} → drop i frame ≡ b ∷ rest → get_elem? frame i ≡ some b
get_elem?-drop [] zero b h = cc
get_elem?-drop [] (suc i) b h = cc
get_elem?-drop (x ∷ xs) zero b h = cc
get_elem?-drop (x ∷ xs) (suc i) b h = get_elem?-drop xs i b h

pub read_byte-drop :
    (frame : Bytes) (i b : ℕ) {rest : Bytes} → drop i frame ≡ b ∷ rest → read_byte frame i ≡ ok b
unfolding read_byte
read_byte-drop frame i b h = rw (get_elem?-drop frame i b h, read_byte)

pub drop_next :
    (frame : Bytes) (i b : ℕ) {rest : Bytes} → drop i frame ≡ b ∷ rest → drop (i + 1) frame ≡ rest
drop_next frame i b h = sym (drop-drop i 1 frame) ∙ ap (drop 1) h

-- The cursor after a block of bytes.
pub drop_block :
    (frame : Bytes) (i : ℕ) (block rest : Bytes)
    → drop i frame ≡ block ++ rest
    → drop (i + length block) frame ≡ rest
drop_block frame i block rest h =
    sym (drop-drop i (length block) frame) ∙ ap (drop (length block)) h ∙ drop-append block rest

length-drop_block :
    (frame : Bytes) (i : ℕ) (block rest : Bytes)
    → drop i frame ≡ block ++ rest
    → i ≤ length frame
    → i + length block + length rest ≡ length frame
length-drop_block frame i block rest h le =
    omega (arith, length-drop i frame, ap length h, length-append block rest)

pub read_bytes-drop :
    (frame : Bytes) (i : ℕ) (block rest : Bytes)
    → drop i frame ≡ block ++ rest
    → i ≤ length frame
    → read_bytes frame i (length block) ≡ ok block
unfolding read_bytes
read_bytes-drop frame i block rest h le =
    rw
      (le→leb (i + length block) (length frame)
        (omega (arith, length-drop_block frame i block rest h le)))
      (ap ok (ap (take (length block)) h ∙ take-append block rest))

-- A read of more than the frame holds.
pub read_bytes_over :
    (frame : Bytes) (i n : ℕ) → length frame < i + n → read_bytes frame i n ≡ fault overread
unfolding read_bytes
read_bytes_over frame i n h = rw (lt→not_leb (i + n) (length frame) h)

-- What a successful read says.
pub read_bytes-ok :
    (frame : Bytes) (i n : ℕ) {block : Bytes}
    → read_bytes frame i n ≡ ok block
    → (i + n ≤ length frame) × (block ≡ take n (drop i frame))
unfolding read_bytes
read_bytes-ok frame i n h = ground arith

-- A pointer at a buffer that begins with the text, and at least as long.
pub read_pointer-append :
    (text rest : Bytes) → read_pointer (some (text ++ rest)) (length text) ≡ ok text
unfolding read_pointer
read_pointer-append text rest = read_bytes-drop (text ++ rest) 0 text rest refl (omega arith)

pub read_pointer-some : (bytes : Bytes) → read_pointer (some bytes) (length bytes) ≡ ok bytes
unfolding read_pointer read_bytes
read_pointer-some bytes =
    rw (zero-add, le→leb (length bytes) (length bytes) (omega arith)) (ap ok (take-length bytes))

-- The same reads backwards: what a successful one says of the frame at the cursor.
get_elem?-eq-some :
    (frame : Bytes) (i : ℕ) {b : ℕ}
    → get_elem? frame i ≡ some b
    → (drop i frame ≡ b ∷ drop (suc i) frame) × (i < length frame)
get_elem?-eq-some [] i h = cc
get_elem?-eq-some (x ∷ xs) zero h = (cc, omega arith)
get_elem?-eq-some (x ∷ xs) (suc i) h =
    let (at, bound) = get_elem?-eq-some xs i h in (at, omega arith)

pub read_byte-ok :
    (frame : Bytes) (i : ℕ) {b : ℕ}
    → read_byte frame i ≡ ok b
    → (drop i frame ≡ b ∷ drop (i + 1) frame) × (i < length frame)
unfolding read_byte
read_byte-ok frame i h = rw add-one (get_elem?-eq-some frame i (ground arith))

pub read_bytes-split :
    (frame : Bytes) (i n : ℕ) {block : Bytes}
    → read_bytes frame i n ≡ ok block
    → (drop i frame ≡ block ++ drop (i + n) frame) × (length block ≡ n) × (i + n ≤ length frame)
read_bytes-split frame i n h =
    let (bound, taken) = read_bytes-ok frame i n h in
    (
      sym (take-append-drop n (drop i frame)) ∙ ap₂ ◌++◌ (sym taken) (drop-drop i n frame),
      ap length taken ∙ length-take n (drop i frame) (omega (arith, length-drop i frame)),
      bound,
    )

-- Reads inside the frame do not fail.
pub read_byte_within :
    (frame : Bytes) (i : ℕ) → i < length frame → (b : ℕ) × (read_byte frame i ≡ ok b)
unfolding read_byte
read_byte_within frame i h = let (b, e) = get_elem?-some frame i h in (b, rw (e, read_byte))

pub read_bytes_within :
    (frame : Bytes) (i n : ℕ)
    → i + n ≤ length frame
    → read_bytes frame i n ≡ ok (take n (drop i frame))
unfolding read_bytes
read_bytes_within frame i n h = rw (le→leb (i + n) (length frame) h)
