-- ===== src/Common/Results.antt =====
-- What a routine that reads raw memory can do: return a value, refuse its input, or read past the
-- end of the memory that it was given.
use Prim.Native.Nat.{ℕ, ◌<◌}
use mathlib.Core.Logic.{◌⊎◌, inl, inr}
use mathlib.Core.Bool.{Bool, true, false, not, true≢false}
use yojimbo_cmake.Common.Tests.{if◌then◌else◌}
use mathlib.Core.Path.{◌≡◌, refl, sym}

pub data Result {ℓ} (A : Type ℓ) : Type ℓ where
  ok : A → Result A
  -- the error value, -1 or 0 or NULL, of the C function
  invalid : Result A
  -- an access outside of the buffer
  fault : Result A

infixl 5 ◌>>=◌ ◌>>◌
abbrev pub ◌>>=◌ {ℓ κ} : {A : Type ℓ} {B : Type κ} → Result A → (A → Result B) → Result B
ok a >>= f = f a
invalid >>= f = invalid
fault >>= f = fault

abbrev pub ◌>>◌ {ℓ} : {B : Type ℓ} → Result (Unit {0}) → Result B → Result B
m >> k = m >>= λ _. k

-- `if ( bad ) return -1;`
abbrev pub refuse_if : Bool → Result (Unit {0})
refuse_if true = invalid
refuse_if false = ok tt

abbrev pub IsByte : ℕ → Type 0
IsByte b = b < 256

-- The routine does not fault, and what it returns satisfies `P`.
abbrev pub Safe {ℓ} : {A : Type ℓ} → (A → Type 0) → Result A → Type 0
Safe P (ok a) = P a
Safe P invalid = Unit
Safe P fault = ⊥

-- The rules that follow the shape of a `do` block.
pub Safe-bind {ℓ κ} :
    {A : Type ℓ} {B : Type κ} (Q : A → Type 0) (P : B → Type 0) (r : Result A) (f : A → Result B)
    → Safe Q r
    → ((a : A) → Q a → Safe P (f a))
    → Safe P (r >>= f)
Safe-bind Q P (ok a) f q k = k a q
Safe-bind Q P invalid f q k = tt
Safe-bind Q P fault f q k = q

pub Safe-refuse {κ} :
    {B : Type κ} (P : B → Type 0) (bad : Bool) (r : Result B)
    → (bad ≡ false → Safe P r)
    → Safe P (refuse_if bad >> r)
Safe-refuse P true r k = tt
Safe-refuse P false r k = k refl

pub Safe-weaken {ℓ} :
    {A : Type ℓ} (Q P : A → Type 0) (r : Result A) → Safe Q r → ((a : A) → Q a → P a) → Safe P r
Safe-weaken Q P (ok a) q k = k a q
Safe-weaken Q P invalid q k = tt
Safe-weaken Q P fault q k = q

-- What the routine returns, if it returns something, satisfies `P`.
abbrev pub Returns {ℓ} : {A : Type ℓ} → (A → Type 0) → Result A → Type 0
Returns P (ok a) = P a
Returns P invalid = Unit
Returns P fault = Unit

pub Returns-bind {ℓ κ} :
    {A : Type ℓ} {B : Type κ} (P : B → Type 0) (r : Result A) (f : A → Result B)
    → ((a : A) → Returns P (f a))
    → Returns P (r >>= f)
Returns-bind P (ok a) f k = k a
Returns-bind P invalid f k = tt
Returns-bind P fault f k = tt

pub Returns-at {ℓ} :
    {A : Type ℓ} (P : A → Type 0) (r : Result A) (a : A) → r ≡ ok a → Returns P r → P a
Returns-at P r a e h = rw e at h

pub Returns-if {ℓ} :
    {A : Type ℓ} (P : A → Type 0) (b : Bool) (r s : Result A)
    → (b ≡ true → Returns P r)
    → Returns P s
    → Returns P (if b then r else s)
Returns-if P true r s h k = h refl
Returns-if P false r s h k = k

pub Returns-then {ℓ κ} :
    {A : Type ℓ} {B : Type κ} (Q : A → Type 0) (P : B → Type 0) (r : Result A) (f : A → Result B)
    → Returns Q r
    → ((a : A) → Q a → Returns P (f a))
    → Returns P (r >>= f)
Returns-then Q P (ok a) f q k = k a q
Returns-then Q P invalid f q k = tt
Returns-then Q P fault f q k = tt

pub Returns-weaken {ℓ} :
    {A : Type ℓ} (Q P : A → Type 0) (r : Result A)
    → Returns Q r
    → ((a : A) → Q a → P a)
    → Returns P r
Returns-weaken Q P (ok a) q k = k a q
Returns-weaken Q P invalid q k = tt
Returns-weaken Q P fault q k = tt

-- The routine returns something, and that satisfies `P`.
abbrev pub Yields {ℓ} : {A : Type ℓ} → (A → Type 0) → Result A → Type 0
Yields P (ok a) = P a
Yields P invalid = ⊥
Yields P fault = ⊥

pub Yields-bind {ℓ κ} :
    {A : Type ℓ} {B : Type κ} (Q : A → Type 0) (P : B → Type 0) (r : Result A) (f : A → Result B)
    → Yields Q r
    → ((a : A) → Q a → Yields P (f a))
    → Yields P (r >>= f)
Yields-bind Q P (ok a) f q k = k a q
Yields-bind Q P invalid f q k = absurd q
Yields-bind Q P fault f q k = absurd q

pub Yields-if {ℓ} :
    {A : Type ℓ} (P : A → Type 0) (b : Bool) (r s : Result A)
    → Yields P r
    → Yields P s
    → Yields P (if b then r else s)
Yields-if P true r s h k = h
Yields-if P false r s h k = k

pub Yields-weaken {ℓ} :
    {A : Type ℓ} (Q P : A → Type 0) (r : Result A) → Yields Q r → ((a : A) → Q a → P a) → Yields P r
Yields-weaken Q P (ok a) q k = k a q
Yields-weaken Q P invalid q k = absurd q
Yields-weaken Q P fault q k = absurd q

-- The same for a branch that needs the test.
pub Yields-when {ℓ} :
    {A : Type ℓ} (P : A → Type 0) (b : Bool) (r s : Result A)
    → (b ≡ true → Yields P r)
    → Yields P s
    → Yields P (if b then r else s)
Yields-when P true r s h k = h refl
Yields-when P false r s h k = k

-- What a routine returns, and that it returns.
pub Yields-Returns {ℓ} :
    {A : Type ℓ} (P Q : A → Type 0) (r : Result A) → Yields P r → Returns Q r → Yields Q r
Yields-Returns P Q (ok a) p h = h
Yields-Returns P Q invalid p h = p
Yields-Returns P Q fault p h = p

pub Yields-and {ℓ} :
    {A : Type ℓ} (P Q : A → Type 0) (r : Result A)
    → Yields P r
    → Returns Q r
    → Yields (λ a. P a × Q a) r
Yields-and P Q (ok a) p h = (p, h)
Yields-and P Q invalid p h = p
Yields-and P Q fault p h = p

-- `if ( !b ) return;`, where `b` holds.
pub Yields-unless {ℓ} :
    {A : Type ℓ} (P : A → Type 0) (b : Bool) (r s : Result A)
    → b ≡ true
    → Yields P s
    → Yields P (if not b then r else s)
Yields-unless P true r s e h = h
Yields-unless P false r s e h = absurd (true≢false (sym e))

pub Returns-unless {ℓ} :
    {A : Type ℓ} (P : A → Type 0) (b : Bool) (r s : Result A)
    → b ≡ true
    → Returns P s
    → Returns P (if not b then r else s)
Returns-unless P true r s e h = h
Returns-unless P false r s e h = absurd (true≢false (sym e))

pub Returns-refuse {κ} :
    {B : Type κ} (P : B → Type 0) (bad : Bool) (r : Result B)
    → (bad ≡ false → Returns P r)
    → Returns P (refuse_if bad >> r)
Returns-refuse P true r k = tt
Returns-refuse P false r k = k refl

-- Two continuations that agree on what is returned.
pub bind_ext {ℓ κ} :
    {A : Type ℓ} {B : Type κ} (Q : A → Type 0) (r : Result A) (f g : A → Result B)
    → Returns Q r
    → ((a : A) → Q a → f a ≡ g a)
    → (r >>= f) ≡ (r >>= g)
bind_ext Q (ok a) f g h k = k a h
bind_ext Q invalid f g h k = refl
bind_ext Q fault f g h k = refl

-- To split on what a routine does and keep the equation.
pub Result-cases {ℓ} :
    {A : Type ℓ} (r : Result A) → (r ≡ fault) ⊎ ((r ≡ invalid) ⊎ ((a : A) × (r ≡ ok a)))
Result-cases fault = inl refl
Result-cases invalid = inr (inl refl)
Result-cases (ok a) = inr (inr (a, refl))
