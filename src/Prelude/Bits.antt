-- ===== src/Prelude/Bits.antt =====
-- The laws of `^` on the native numbers: an abelian group in which every element is its own inverse.
use Prim.Native.Nat.{
  ℕ, zero, suc, ◌+◌, ◌*◌, ◌/◌, ◌%◌, ◌≤◌, ◌<◌, bit_xor, digits, differ, bit_xor-bitwise,
}
use mathlib.Core.Path.{◌≡◌, refl, sym, ◌∙◌, ap}
use native.Mathlib.Nat.{le_refl}
use native.Mathlib.Omega.{arith}

-- The native operation means a recursion on binary digits with fuel; here the fuel is dropped.
abbrev xor_digits : ℕ → ℕ → ℕ → ℕ
xor_digits n a b = digits (λ b. b) differ n a b

xor_digits_fuel : (n m a b : ℕ) → a ≤ n → a ≤ m → xor_digits n a b ≡ xor_digits m a b
xor_digits_fuel (suc n) (suc m) (suc a) b p q =
    rw (xor_digits_fuel n m (suc a / 2) (b / 2) (omega arith) (omega arith))
xor_digits_fuel zero m (suc a) b p q = absurd (omega arith)
xor_digits_fuel (suc n) zero (suc a) b p q = absurd (omega arith)
xor_digits_fuel zero zero zero b p q = refl
xor_digits_fuel zero (suc m) zero b p q = refl
xor_digits_fuel (suc n) zero zero b p q = refl
xor_digits_fuel (suc n) (suc m) zero b p q = refl

pub zero-bit_xor : (b : ℕ) → bit_xor 0 b ≡ b
zero-bit_xor b = bit_xor-bitwise 0 b

bits-differ : (x y : ℕ) → x < 2 → y < 2 → differ x y ≡ (x + y) % 2
bits-differ zero y p q = omega arith
bits-differ (suc zero) zero p q = refl
bits-differ (suc zero) (suc zero) p q = refl
bits-differ (suc zero) (suc (suc y)) p q = absurd (omega arith)
bits-differ (suc (suc x)) y p q = absurd (omega arith)

-- The lowest digit of the result, and what is above it.
bit_xor_step : (a b : ℕ) → bit_xor a b ≡ bit_xor (a / 2) (b / 2) * 2 + (a + b) % 2
bit_xor_step zero b = omega (arith, zero-bit_xor b, zero-bit_xor (b / 2))
bit_xor_step (suc a) b = omega (
  arith,
  bit_xor-bitwise (suc a) b,
  bit_xor-bitwise (suc a / 2) (b / 2),
  bits-differ (suc a % 2) (b % 2) (omega arith) (omega arith),
  xor_digits_fuel a (suc a / 2) (suc a / 2) (b / 2) (omega arith) (le_refl _),
)

bit_xor-zero_below : (n a : ℕ) → a ≤ n → bit_xor a 0 ≡ a
bit_xor-zero_below n zero h = refl
bit_xor-zero_below zero (suc a) h = absurd (omega arith)
bit_xor-zero_below (suc n) (suc a) h =
    omega (arith, bit_xor_step (suc a) 0, bit_xor-zero_below n (suc a / 2) (omega arith))

pub bit_xor-zero : (a : ℕ) → bit_xor a 0 ≡ a
bit_xor-zero a = bit_xor-zero_below a a (le_refl _)

bit_xor_self_below : (n a : ℕ) → a ≤ n → bit_xor a a ≡ 0
bit_xor_self_below n zero h = refl
bit_xor_self_below zero (suc a) h = absurd (omega arith)
bit_xor_self_below (suc n) (suc a) h =
    omega (arith, bit_xor_step (suc a) (suc a), bit_xor_self_below n (suc a / 2) (omega arith))

pub bit_xor_self : (a : ℕ) → bit_xor a a ≡ 0
bit_xor_self a = bit_xor_self_below a a (le_refl _)

bit_xor_comm_below : (n a b : ℕ) → a ≤ n → bit_xor a b ≡ bit_xor b a
bit_xor_comm_below n zero b h = zero-bit_xor b ∙ sym (bit_xor-zero b)
bit_xor_comm_below zero (suc a) b h = absurd (omega arith)
bit_xor_comm_below (suc n) (suc a) b h = omega (
  arith,
  bit_xor_step (suc a) b,
  bit_xor_step b (suc a),
  bit_xor_comm_below n (suc a / 2) (b / 2) (omega arith),
)

pub bit_xor_comm : (a b : ℕ) → bit_xor a b ≡ bit_xor b a
bit_xor_comm a b = bit_xor_comm_below a a b (le_refl _)

bit_xor-half : (a b : ℕ) → bit_xor a b / 2 ≡ bit_xor (a / 2) (b / 2)
bit_xor-half a b = omega (arith, bit_xor_step a b)

bit_xor-parity : (a b : ℕ) → bit_xor a b % 2 ≡ (a + b) % 2
bit_xor-parity a b = omega (arith, bit_xor_step a b)

bit_xor_assoc_below : (n a b c : ℕ) → a ≤ n → bit_xor (bit_xor a b) c ≡ bit_xor a (bit_xor b c)
bit_xor_assoc_below n zero b c h = rw (zero-bit_xor b) (sym (zero-bit_xor (bit_xor b c)))
bit_xor_assoc_below zero (suc a) b c h = absurd (omega arith)
bit_xor_assoc_below (suc n) (suc a) b c h = omega (
  arith,
  bit_xor_step (bit_xor (suc a) b) c,
  bit_xor_step (suc a) (bit_xor b c),
  bit_xor-parity (suc a) b,
  bit_xor-parity b c,
  ap (λ (t : ℕ). bit_xor t (c / 2)) (bit_xor-half (suc a) b),
  ap (λ (t : ℕ). bit_xor (suc a / 2) t) (bit_xor-half b c),
  bit_xor_assoc_below n (suc a / 2) (b / 2) (c / 2) (omega arith),
)

pub bit_xor_assoc : (a b c : ℕ) → bit_xor (bit_xor a b) c ≡ bit_xor a (bit_xor b c)
bit_xor_assoc a b c = bit_xor_assoc_below a a b c (le_refl _)

-- Equal values are the only ones with no differing digit.
pub bit_xor-eq-zero : (a b : ℕ) → bit_xor a b ≡ 0 → a ≡ b
bit_xor-eq-zero a b h =
    sym (bit_xor-zero a)
    ∙ ap (bit_xor a) (sym (bit_xor_self b))
    ∙ sym (bit_xor_assoc a b b)
    ∙ ap (λ (t : ℕ). bit_xor t b) h
    ∙ zero-bit_xor b

bit_xor-lt_two : (a b : ℕ) → a < 2 → b < 2 → bit_xor a b < 2
bit_xor-lt_two zero b p q = omega (arith, zero-bit_xor b)
bit_xor-lt_two (suc zero) zero p q = omega arith
bit_xor-lt_two (suc zero) (suc zero) p q = omega arith
bit_xor-lt_two (suc zero) (suc (suc b)) p q = absurd (omega arith)
bit_xor-lt_two (suc (suc a)) b p q = absurd (omega arith)

pub bit_xor-byte : (a b : ℕ) → a < 256 → b < 256 → bit_xor a b < 256
bit_xor-byte a b p q = omega (
  arith,
  bit_xor_step a b,
  bit_xor_step (a / 2) (b / 2),
  bit_xor_step (a / 2 / 2) (b / 2 / 2),
  bit_xor_step (a / 2 / 2 / 2) (b / 2 / 2 / 2),
  bit_xor_step (a / 2 / 2 / 2 / 2) (b / 2 / 2 / 2 / 2),
  bit_xor_step (a / 2 / 2 / 2 / 2 / 2) (b / 2 / 2 / 2 / 2 / 2),
  bit_xor_step (a / 2 / 2 / 2 / 2 / 2 / 2) (b / 2 / 2 / 2 / 2 / 2 / 2),
  bit_xor-lt_two (a / 2 / 2 / 2 / 2 / 2 / 2 / 2) (b / 2 / 2 / 2 / 2 / 2 / 2 / 2) (omega arith)
      (omega arith),
)
