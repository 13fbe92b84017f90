-- ===== src/Types/Always.antt =====
-- Properties of what a call delivers, on all its branches.
use liboctopipes.Prelude.{refl, subst, ◌≡◌, Bool, true, false, if◌then◌else◌}
use liboctopipes.Types.{Outcome, ok, err, fault, pending, ◌>>=◌, handle, Error}

-- A property of what a call delivers, if it delivers anything.
abbrev pub Always {ℓ κ} : {A : Type ℓ} → (A → Type κ) → Outcome A → Type κ
Always P (ok a) = P a
Always P (err code) = Unit
Always P (fault why) = Unit
Always P pending = Unit

pub Always-bind {ℓ κ ι η} :
    {A : Type ℓ} {B : Type κ} (Q : A → Type η) (P : B → Type ι) (m : Outcome A) (f : A → Outcome B)
    → Always Q m
    → ((a : A) → Q a → Always P (f a))
    → Always P (m >>= f)
Always-bind Q P (ok a) f q h = h a q
Always-bind Q P (err code) f q h = tt
Always-bind Q P (fault why) f q h = tt
Always-bind Q P pending f q h = tt

module _ {ℓ κ ι} {A : Type ℓ} {B : Type κ} (P : B → Type ι) where
  pub Always->>= :
      (m : Outcome A) (f : A → Outcome B) → ((a : A) → Always P (f a)) → Always P (m >>= f)
  Always->>= (ok a) f h = h a
  Always->>= (err code) f h = tt
  Always->>= (fault why) f h = tt
  Always->>= pending f h = tt

  pub Always-handle :
      (m : Outcome A) (g : Error → Outcome B) (f : A → Outcome B)
      → ((e : Error) → Always P (g e))
      → ((a : A) → Always P (f a))
      → Always P (handle m g f)
  Always-handle (ok a) g f hg hf = hf a
  Always-handle (err code) g f hg hf = hg code
  Always-handle (fault why) g f hg hf = tt
  Always-handle pending g f hg hf = tt

pub Always-if {κ ι} :
    {B : Type κ} (P : B → Type ι) (b : Bool) (x y : Outcome B)
    → Always P x
    → Always P y
    → Always P (if b then x else y)
Always-if P true x y hx hy = hx
Always-if P false x y hx hy = hy

pub Always-map {ℓ κ ι} :
    {A : Type ℓ} (P : A → Type κ) (Q : A → Type ι) (m : Outcome A)
    → ((a : A) → P a → Q a)
    → Always P m
    → Always Q m
Always-map P Q (ok a) f h = f a h
Always-map P Q (err code) f h = tt
Always-map P Q (fault why) f h = tt
Always-map P Q pending f h = tt

pub if-both {ℓ κ} :
    {A : Type ℓ} (P : A → Type κ) (b : Bool) (x y : A) → P x → P y → P (if b then x else y)
if-both P true x y hx hy = hx
if-both P false x y hx hy = hy

-- A property of what a call delivers holds of what it delivered.
pub delivered {ℓ κ} :
    {A : Type ℓ} (P : A → Type κ) (m : Outcome A) {a : A} → Always P m → m ≡ ok a → P a
delivered P m h e = subst (Always P) e h

-- Two continuations that agree on what a call can deliver.
pub >>=-congr {ℓ κ ι} :
    {A : Type ℓ} {B : Type κ} (P : A → Type ι) (m : Outcome A) (f g : A → Outcome B)
    → Always P m
    → ((a : A) → P a → f a ≡ g a)
    → (m >>= f) ≡ (m >>= g)
>>=-congr P (ok a) f g h same = same a h
>>=-congr P (err code) f g h same = refl
>>=-congr P (fault why) f g h same = refl
>>=-congr P pending f g h same = refl

-- The same, where each branch may use the test.
pub Always-if_known {κ ι} :
    {B : Type κ} (P : B → Type ι) (b : Bool) (x y : Outcome B)
    → (b ≡ true → Always P x)
    → (b ≡ false → Always P y)
    → Always P (if b then x else y)
Always-if_known P true x y hx hy = hx refl
Always-if_known P false x y hx hy = hy refl

pub if-both_known {ℓ κ} :
    {A : Type ℓ} (P : A → Type κ) (b : Bool) (x y : A)
    → (b ≡ true → P x)
    → (b ≡ false → P y)
    → P (if b then x else y)
if-both_known P true x y hx hy = hx refl
if-both_known P false x y hx hy = hy refl
