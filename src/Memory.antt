-- ===== src/Memory.antt =====
-- Reads and writes of C buffers, with the accesses that leave them as faults.
pub mod Cursor
use liboctopipes.Prelude.{
  ℕ, ◌+◌, Bool, true, false, ◌&&◌, ◌%◌, ◌^◌, Option, none, some, [], ◌∷◌, ◌++◌, leb, ltb, ◌==◌,
  if◌then◌else◌, length, get_elem?, set, take, drop,
}
use liboctopipes.Types.{
  Outcome, ok, fault, overread, overflow, null_dereference, dangling, Bytes, Pointer, null, freed,
  buffer, ◌>>=◌,
}

-- `buffer[i]`
unfoldable pub read_byte : Bytes → ℕ → Outcome ℕ
read_byte bytes i = elim (get_elem? bytes i) [ none ↦ fault overread | some b ↦ ok b ]

-- The n bytes from position i on, as `memcpy` reads them.
unfoldable pub read_bytes : Bytes → ℕ → ℕ → Outcome Bytes
read_bytes bytes i n =
    if leb (i + n) (length bytes) then ok (take n (drop i bytes)) else fault overread

-- The same through a pointer that may be NULL. Nothing is read for n = 0.
unfoldable pub read_pointer : Option Bytes → ℕ → Outcome Bytes
read_pointer none n = if n == 0 then ok [] else fault null_dereference
read_pointer (some bytes) n = read_bytes bytes 0 n

-- `buffer[i] = b`
unfoldable pub write_byte : Bytes → ℕ → ℕ → Outcome Bytes
write_byte bytes i b = if ltb i (length bytes) then ok (set bytes i b) else fault overflow

-- The bytes before the null terminator, which `strlen` counts and `strcpy` copies.
abbrev pub scan_string : Bytes → Outcome Bytes
scan_string [] = fault overread
scan_string (b ∷ bs) = if b == 0 then ok [] else (scan_string bs >>= λ rest. ok (b ∷ rest))

-- The text that a pointer to a C string stands for.
unfoldable pub read_string : Option Bytes → Outcome Bytes
read_string none = fault null_dereference
read_string (some bytes) = scan_string bytes

-- A fresh buffer with this text and its terminator.
abbrev pub terminated : Bytes → Bytes
terminated text = text ++ 0 ∷ []

-- uint8_t, uint64_t and size_t.
abbrev pub u8 : ℕ → ℕ
u8 n = n % 256

abbrev pub u64 : ℕ → ℕ
u64 n = n % 2 ^ 64

-- `free`, which leaves the pointer dangling; NULL is let be.
abbrev pub free_pointer : Pointer → Outcome Pointer
free_pointer null = ok null
free_pointer freed = fault dangling
free_pointer (buffer bytes) = ok freed

-- A path that is handed to `open`. A NULL path makes `open` fail, which the script says.
abbrev pub usable : Pointer → Outcome (Unit {0})
usable null = ok tt
usable freed = fault dangling
usable (buffer bytes) = ok tt

-- `strcmp(a, b) == 0`, on the texts.
abbrev pub same_bytes : Bytes → Bytes → Bool
same_bytes [] [] = true
same_bytes [] (b ∷ bs) = false
same_bytes (a ∷ as') [] = false
same_bytes (a ∷ as') (b ∷ bs) = a == b && same_bytes as' bs

abbrev pub bytes_or_empty : Option Bytes → Bytes
bytes_or_empty none = []
bytes_or_empty (some bytes) = bytes
