-- ===== src/Clients/Naming.antt =====
-- The random names of clients.
use liboctopipes.Prelude.{
  ℕ, zero, suc, ◌+◌, ◌-◌, ◌%◌, ◌≤◌, ◌<◌, ◌≡◌, ◌≢◌, refl, sym, ap, ◌∙◌, Bool, true, ◌&&◌, ◌||◌, leb,
  some, [], ◌∷◌, ◌++◌, append_assoc, length, length-append, length-drop, List-cases, inl, inr, drop,
  set, get_elem?, get_elem?-some, All, All-append, arith, lt→ltb, lt→not_eq, le→leb,
}
use liboctopipes.Types.{ok, Bytes}
use liboctopipes.Memory.{read_byte, write_byte, scan_string}
use liboctopipes.Cap.Subscribe.{IsText}
use liboctopipes.Clients.{
  charset, random_characters, gen_rand_string, default_client_id, gen_random_clid,
}

-- A letter or a digit.
abbrev pub is_alphanumeric : ℕ → Bool
is_alphanumeric c =
    leb b'a' c && leb c b'z' || (leb b'A' c && leb c b'Z' || leb b'0' c && leb c b'9')

-- All bytes of a list pass a test.
abbrev all_of : (ℕ → Bool) → Bytes → Bool
all_of test [] = true
all_of test (b ∷ bs) = test b && all_of test bs

all_of-get_elem? :
    (test : ℕ → Bool) (bytes : Bytes) (i : ℕ) {b : ℕ}
    → all_of test bytes ≡ true
    → get_elem? bytes i ≡ some b
    → test b ≡ true
all_of-get_elem? test [] i h e = cc
all_of-get_elem? test (x ∷ bytes) zero h e = ground arith
all_of-get_elem? test (x ∷ bytes) (suc i) h e = all_of-get_elem? test bytes i (ground arith) e

abbrev pub IsAlphanumeric : ℕ → Type 0
IsAlphanumeric c = is_alphanumeric c ≡ true

charset-IsAlphanumeric : all_of is_alphanumeric charset ≡ true
charset-IsAlphanumeric = refl

length-charset : length charset ≡ 62
length-charset = refl

-- A character that is drawn.
pub drawn : (key : ℕ) → (c : ℕ) × (read_byte charset (key % 62) ≡ ok c) × IsAlphanumeric c
unfolding read_byte
drawn key =
    let (c, e) = get_elem?-some charset (key % 62) (omega arith) in
    (
      c,
      rw (read_byte, e),
      all_of-get_elem? is_alphanumeric charset (key % 62) charset-IsAlphanumeric e,
    )

-- The characters from the n-th answer of `rand` on.
abbrev pub characters : (ℕ → ℕ) → (n left : ℕ) → Bytes
characters random n zero = []
characters random n (suc left) = (drawn (random n)).0 ∷ characters random (suc n) left

length-characters : (random : ℕ → ℕ) (n left : ℕ) → length (characters random n left) ≡ left
length-characters random n zero = refl
length-characters random n (suc left) = ap suc (length-characters random (suc n) left)

characters-IsAlphanumeric :
    (random : ℕ → ℕ) (n left : ℕ) → All IsAlphanumeric (characters random n left)
characters-IsAlphanumeric random n zero = tt
characters-IsAlphanumeric random n (suc left) =
    ((drawn (random n)).2, characters-IsAlphanumeric random (suc n) left)

set-append :
    (pre : Bytes) (y v : ℕ) (ys : Bytes) → set (pre ++ y ∷ ys) (length pre) v ≡ pre ++ v ∷ ys
set-append [] y v ys = refl
set-append (x ∷ pre) y v ys = ap (λ r. x ∷ r) (set-append pre y v ys)

write_byte-append :
    (pre : Bytes) (y v : ℕ) (ys : Bytes)
    → write_byte (pre ++ y ∷ ys) (length pre) v ≡ ok (pre ++ v ∷ ys)
unfolding write_byte
write_byte-append pre y v ys = rw (
  lt→ltb (length pre) (length (pre ++ y ∷ ys)) (omega (arith, length-append pre (y ∷ ys))),
  set-append pre y v ys,
)

-- The loop writes behind what is there, within the buffer.
random_characters-characters :
    (random : ℕ → ℕ) (n left : ℕ) (pre rest : Bytes)
    → left ≤ length rest
    → random_characters random n left (length pre) (pre ++ rest)
      ≡ ok (pre ++ (characters random n left ++ drop left rest))
unfolding random_characters
random_characters-characters random n zero pre rest room = refl
random_characters-characters random n (suc left) pre [] room = absurd (omega arith)
random_characters-characters random n (suc left) pre (y ∷ ys) room =
    let c = (drawn (random n)).0 in
    rw ((drawn (random n)).1, write_byte-append pre y c ys)
      (ap (λ b. random_characters random (suc n) left b (pre ++ c ∷ ys)) (sym (length-snoc pre c))
        ∙ ap (random_characters random (suc n) left (length (pre ++ c ∷ [])))
            (sym (append_assoc pre (c ∷ []) ys))
        ∙ random_characters-characters random (suc n) left (pre ++ c ∷ []) ys (omega arith)
        ∙ ap ok (append_assoc pre (c ∷ []) (characters random (suc n) left ++ drop left ys)))
  where
    length-snoc : (xs : Bytes) (x : ℕ) → length (xs ++ x ∷ []) ≡ suc (length xs)
    length-snoc xs x = omega (arith, length-append xs (x ∷ []))

scan_string-append : (text rest : Bytes) → IsText text → scan_string (text ++ 0 ∷ rest) ≡ ok text
scan_string-append [] rest h = refl
scan_string-append (zero ∷ bs) rest h = absurd (h.0 refl)
scan_string-append (suc b ∷ bs) rest h = ground (arith, scan_string-append bs rest h.1)

IsAlphanumeric-IsText : (text : Bytes) → All IsAlphanumeric text → IsText text
IsAlphanumeric-IsText [] h = tt
IsAlphanumeric-IsText (b ∷ bs) h =
    (λ e. not_zero (ap is_alphanumeric (sym e) ∙ h.0), IsAlphanumeric-IsText bs h.1)
  where
    not_zero : is_alphanumeric 0 ≡ true → ⊥
    not_zero e = cc

default_client_id-IsText : IsText default_client_id
default_client_id-IsText = omega arith

less : (size : ℕ) → suc size - 1 ≡ size
less size = omega arith

-- gen_rand_string behind `pre`: the characters, and a null terminator.
gen_rand_string-characters :
    (random : ℕ → ℕ) (size : ℕ) (pre rest : Bytes)
    → size < length rest
    → (behind : Bytes) × (gen_rand_string random (length pre) (suc size) (pre ++ rest)
        ≡ ok ((pre ++ characters random 0 size) ++ 0 ∷ behind))
      × (suc (size + length behind) ≡ length rest)
unfolding gen_rand_string
gen_rand_string-characters random size pre rest room = elim (List-cases (drop size rest)) [
  | inl e ↦ absurd (omega (arith, length-drop size rest, ap length e))
  | inr (y, ys, e) ↦ (
    ys,
    rw
        (
          gen_rand_string,
          lt→not_eq 0 (suc size) (omega arith),
          less size,
          random_characters-characters random 0 size pre rest (omega arith),
          e,
        )
        (ap (λ bs. write_byte bs (length pre + size) 0)
            (sym (append_assoc pre (characters random 0 size) (y ∷ ys)))
          ∙ ap (λ i. write_byte ((pre ++ characters random 0 size) ++ y ∷ ys) i 0)
              (omega (
                arith,
                length-append pre (characters random 0 size),
                length-characters random 0 size,
              ))
          ∙ write_byte-append (pre ++ characters random 0 size) y 0 ys),
    omega (arith, length-drop size rest, ap length e),
  )
]

-- The name of a client that gives none: gen_random_clid stays within the 26 bytes that it allocates,
-- whatever they hold and `rand` answers. The result is a C string of 24 characters, which are
-- "octopipes-client-" and seven letters or digits. The allocation is assumed to succeed.
pub gen_random_clid-name :
    (block : Bytes) (random : ℕ → ℕ)
    → length block ≡ 26
    → (clid : Bytes) × (name : Bytes) × (gen_random_clid (some block) random ≡ ok clid)
      × (length clid ≡ 26)
      × (scan_string clid ≡ ok (default_client_id ++ name))
      × (length name ≡ 7)
      × All IsAlphanumeric name
unfolding gen_random_clid
gen_random_clid-name block random size =
    let rest = drop 17 block in
    let (behind, made, left) =
      gen_rand_string-characters random 7 default_client_id rest
        (omega (arith, length-drop 17 block)) in
    let name = characters random 0 7 in
    (
      (default_client_id ++ name) ++ 0 ∷ behind,
      name,
      rw (le→leb 17 (length block) (omega arith)) made,
      omega (
        arith,
        length-drop 17 block,
        length-append (default_client_id ++ name) (0 ∷ behind),
        length-append default_client_id name,
        length-characters random 0 7,
      ),
      scan_string-append (default_client_id ++ name) behind (
          All-append (λ b. b ≢ 0) default_client_id name default_client_id-IsText
            (IsAlphanumeric-IsText name (characters-IsAlphanumeric random 0 7))),
      length-characters random 0 7,
      characters-IsAlphanumeric random 0 7,
    )
