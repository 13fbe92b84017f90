-- ===== src/Clients.antt =====
-- clients/octopipes_send.c and clients/octopipes_sub.c: what the two programs share, a random name for
-- the client, and the codes with which they exit.
--
-- What they print is not part of the model. `getopt`, `atoi` and `rand` belong to the system: the
-- options come parsed, and `random n` is the n-th answer of `rand`.
pub mod Naming
pub mod Send
pub mod Sub
mod Tests
use liboctopipes.Prelude.{
  ℕ, zero, suc, ◌+◌, ◌-◌, ◌%◌, ◌==◌, Option, none, some, [], ◌∷◌, ◌++◌, leb, length, drop,
  if◌then◌else◌,
}
use liboctopipes.Types.{
  Outcome, ok, fault, overflow, null_dereference, ◌>>=◌, Bytes, Error, success, uninitialized,
  bad_packet, bad_checksum, unsupported_version, no_data_available, open_failed, write_failed,
  read_failed, cap_timeout, not_subscribed, not_unsubscribed, thread, bad_alloc, unknown_error,
}
use liboctopipes.Memory.{read_byte, write_byte}

-- The numbers of OctopipesError, which the programs return.
unfoldable pub error_number : Error → ℕ
error_number success = 0
error_number uninitialized = 1
error_number bad_packet = 2
error_number bad_checksum = 3
error_number unsupported_version = 4
error_number no_data_available = 5
error_number open_failed = 6
error_number write_failed = 7
error_number read_failed = 8
error_number cap_timeout = 9
error_number not_subscribed = 10
error_number not_unsubscribed = 11
error_number thread = 12
error_number bad_alloc = 13
error_number unknown_error = 14

-- The count numbers from n on.
abbrev counted : (n from : ℕ) → Bytes
counted zero from = []
counted (suc n) from = from ∷ counted n (suc from)

-- The letters and digits.
abbrev pub charset : Bytes
charset = counted 26 b'a' ++ (counted 26 b'A' ++ counted 10 b'0')

-- The loop of gen_rand_string: `left` characters from position `at` on.
unfoldable pub random_characters : (ℕ → ℕ) → (n left at : ℕ) → Bytes → Outcome Bytes
random_characters random n zero at buffer = ok buffer
random_characters random n (suc left) at buffer = do
  c ← read_byte charset (random n % 62)
  buffer' ← write_byte buffer at c
  random_characters random (suc n) left (suc at) buffer'

-- gen_rand_string, on the part of a buffer from position `at` on.
unfoldable pub gen_rand_string : (ℕ → ℕ) → (at size : ℕ) → Bytes → Outcome Bytes
gen_rand_string random at size buffer = if size == 0 then ok buffer else (do
  buffer' ← random_characters random 0 (size - 1) at buffer
  write_byte buffer' (at + (size - 1)) 0)

-- "octopipes-client-".
abbrev pub default_client_id : Bytes
default_client_id =
    b'o' ∷ b'c' ∷ b't' ∷ b'o' ∷ b'p' ∷ b'i' ∷ b'p' ∷ b'e' ∷ b's' ∷ b'-' ∷ b'c' ∷ b'l' ∷ b'i' ∷ b'e'
    ∷ b'n' ∷ b't' ∷ b'-' ∷ []

-- memcpy to the start of a buffer.
abbrev pub copy_in : Bytes → Bytes → Outcome Bytes
copy_in bytes buffer =
    if leb (length bytes) (length buffer)
    then ok (bytes ++ drop (length bytes) buffer)
    else fault overflow

-- gen_random_clid. `block` is what malloc gave, 26 bytes of any content, or NULL, which is not checked.
unfoldable pub gen_random_clid : Option Bytes → (ℕ → ℕ) → Outcome Bytes
gen_random_clid none random = fault null_dereference
gen_random_clid (some block) random = do
  clid ← copy_in default_client_id block
  gen_rand_string random 17 8 clid
