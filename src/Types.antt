-- ===== src/Types.antt =====
-- The enumerations and the message structure of include/octopipes/types.h, and what a call of the
-- library can come to.
pub mod Always
use liboctopipes.Prelude.{ℕ, ◌+◌, ◌≡◌, refl, Bool, true, false, Option, List}

-- OctopipesError.
pub data Error : Type 0 where
  success uninitialized bad_packet bad_checksum unsupported_version no_data_available : Error
  open_failed write_failed read_failed cap_timeout not_subscribed not_unsubscribed : Error
  thread bad_alloc unknown_error : Error

-- What the C standard leaves undefined, and the model reports. `overread` and `overflow` are an
-- access outside an object, `null_dereference` one through NULL, `dangling` one through a pointer
-- that was freed, `uninitialized_read` one through a pointer that was never set.
pub data Fault : Type 0 where
  overread overflow null_dereference dangling uninitialized_read : Fault

-- A call that delivers a value, returns an error code, runs into undefined behaviour, or does not
-- return.
pub data Outcome {ℓ} (A : Type ℓ) : Type ℓ where
  ok : A → Outcome A
  err : Error → Outcome A
  fault : Fault → Outcome A
  pending : Outcome A

module _ {ℓ κ} {A : Type ℓ} {B : Type κ} where
  infixl 5 ◌>>=◌
  abbrev pub ◌>>=◌ : Outcome A → (A → Outcome B) → Outcome B
  pending >>= next = pending
  fault why >>= next = fault why
  err code >>= next = err code
  ok value >>= next = next value

  -- A call delivers through its first part.
  abbrev pub Passes : Outcome A → (A → Outcome B) → B → Type (ℓ ⊔ κ)
  Passes call next result = (value : A) × (call ≡ ok value) × (next value ≡ ok result)

  pub >>=-Passes :
      (call : Outcome A) (next : A → Outcome B) {result : B}
      → call >>= next ≡ ok result
      → Passes call next result
  >>=-Passes pending next h = cc
  >>=-Passes (fault why) next h = cc
  >>=-Passes (err code) next h = cc
  >>=-Passes (ok value) next h = (value, refl, h)

module _ {ℓ} {B : Type ℓ} where
  infixl 5 ◌>>◌
  abbrev pub ◌>>◌ : Outcome (Unit {0}) → Outcome B → Outcome B
  first >> second = first >>= λ _. second

-- `if (!test) return e;`
abbrev pub require : Bool → Error → Outcome (Unit {0})
require true e = ok tt
require false e = err e

-- Bytes and C strings are lists of numbers below 256. A C string is the whole buffer, the null
-- terminator with it.
abbrev pub Bytes : Type 0
Bytes = List ℕ

-- The k-th allocation of a call succeeds: `malloc` does not return NULL.
abbrev pub Heap : Type 0
Heap = ℕ → Bool

-- The heap that never runs out.
abbrev pub ample : Heap
ample k = true

-- What is left for a callee whose first allocation is the k-th of the caller.
abbrev pub heap_from : ℕ → Heap → Heap
heap_from k heap n = heap (k + n)

-- OctopipesMessage. A pointer is NULL or points at a buffer, given by its bytes.
pub record Message : Type 0 where
  pub version : ℕ
  pub origin_size : ℕ
  pub origin : Option Bytes
  pub remote_size : ℕ
  pub remote : Option Bytes
  pub ttl : ℕ
  pub data_size : ℕ
  pub options : ℕ
  pub checksum : ℕ
  pub payload : Option Bytes

-- OctopipesVersion and OctopipesOptions.
abbrev pub version_1 : ℕ
version_1 = 1

abbrev pub require_ack : ℕ
require_ack = 1

abbrev pub ack : ℕ
ack = 2

abbrev pub ignore_checksum : ℕ
ignore_checksum = 4

pub require-ok : (b : Bool) (e : Error) {u : Unit {0}} → require b e ≡ ok u → b ≡ true
require-ok true e h = refl
require-ok false e h = cc

pub ok-injective {ℓ} : {A : Type ℓ} {a b : A} → ok a ≡ ok b → a ≡ b
ok-injective h = cc

-- A pointer field that the library frees and sets again: NULL, freed, or at a buffer.
pub data Pointer : Type 0 where
  null freed : Pointer
  buffer : Bytes → Pointer

-- OctopipesCapMessage. (OctopipesCapError is a number: any byte of a packet is cast to it.)
pub data CapMessage : Type 0 where
  unknown subscription assignment unsubscription : CapMessage

abbrev pub cap_success : ℕ
cap_success = 0

abbrev pub name_already_taken : ℕ
name_already_taken = 1

abbrev pub cap_fs : ℕ
cap_fs = 2

pub >>=-ok {ℓ} : {A : Type ℓ} (m : Outcome A) → (m >>= λ a. ok a) ≡ m
>>=-ok (ok a) = refl
>>=-ok (err e) = refl
>>=-ok (fault x) = refl
>>=-ok pending = refl

pub >>=-assoc {ℓ κ ι} :
    {A : Type ℓ} {B : Type κ} {C : Type ι} (m : Outcome A) (f : A → Outcome B) (g : B → Outcome C)
    → ((m >>= f) >>= g) ≡ (m >>= λ a. f a >>= g)
>>=-assoc (ok a) f g = refl
>>=-assoc (err e) f g = refl
>>=-assoc (fault x) f g = refl
>>=-assoc pending f g = refl

-- OctopipesState.
pub data State : Type 0 where
  init subscribed running unsubscribed stopped : State

abbrev pub is_state : State → State → Bool
is_state init init = true
is_state subscribed subscribed = true
is_state running running = true
is_state unsubscribed unsubscribed = true
is_state stopped stopped = true
is_state _ _ = false

-- The code that a call returns, for a caller that goes on by it.
abbrev pub handle {ℓ κ} :
    {A : Type ℓ} {B : Type κ} → Outcome A → (Error → Outcome B) → (A → Outcome B) → Outcome B
handle (ok a) failed next = next a
handle (err e) failed next = failed e
handle (fault x) failed next = fault x
handle pending failed next = pending

abbrev pub is_success : Error → Bool
is_success success = true
is_success _ = false
