-- ===== src/Common/Memory.antt =====
-- `memcpy` into a buffer of known size.
use Prim.Native.Nat.{ℕ, zero, suc, ◌+◌, ◌≤◌}
use mathlib.Core.Path.{ap, ◌≡◌, refl}
use mathlib.Core.Bool.{◌||◌}
use mathlib.Core.List.{List, [], ◌∷◌, ◌++◌}
use mathlib.Core.Logic.{inl, inr}
use native.Mathlib.Omega.{arith}
use yojimbo_cmake.Common.Tests.{ltb, le→ltb, ltb→le, Bool-cases, if◌then◌else◌}
use yojimbo_cmake.Common.Lists.{length, take, drop, length-append, length-take, length-drop}
use yojimbo_cmake.Common.Results.{Result, ok, fault, Safe, Returns}

-- `dst` with `src` over the bytes from `at_byte` on
pub splice : List ℕ → ℕ → List ℕ → List ℕ
splice dst at_byte src = take at_byte dst ++ (src ++ drop (at_byte + length src) dst)

-- memcpy( dst + at_byte, src, n ): a fault where either side has too few bytes
unfoldable pub memcpy : List ℕ → ℕ → List ℕ → ℕ → Result (List ℕ)
unfolding splice
memcpy dst at_byte src n =
    if ltb (length src) n || ltb (length dst) (at_byte + n)
    then fault
    else ok (splice dst at_byte (take n src))

pub length-splice :
    (dst : List ℕ) (at_byte : ℕ) (src : List ℕ)
    → at_byte + length src ≤ length dst
    → length (splice dst at_byte src) ≡ length dst
unfolding splice
length-splice dst at_byte src h = omega (
  arith,
  length-append (take at_byte dst) (src ++ drop (at_byte + length src) dst),
  length-append src (drop (at_byte + length src) dst),
  length-take at_byte dst,
  length-drop (at_byte + length src) dst,
)

-- A copy that fits on both sides goes through.
pub memcpy_lem :
    (dst : List ℕ) (at_byte : ℕ) (src : List ℕ) (n : ℕ)
    → n ≤ length src
    → at_byte + n ≤ length dst
    → memcpy dst at_byte src n ≡ ok (splice dst at_byte (take n src))
unfolding memcpy
memcpy_lem dst at_byte src n h k = ground arith

-- The first `n` bytes of some memory, which a routine that is passed a length works on.
unfoldable pub region : List ℕ → ℕ → Result (List ℕ)
region mem n = if ltb (length mem) n then fault else ok (take n mem)

pub region_lem : (mem : List ℕ) (n : ℕ) → n ≤ length mem → region mem n ≡ ok (take n mem)
unfolding region
region_lem mem n h = rw (le→ltb (length mem) n h) refl

pub region-Safe : (mem : List ℕ) (n : ℕ) → n ≤ length mem → Safe (λ l. length l ≡ n) (region mem n)
region-Safe mem n h = rw (region_lem mem n h) (omega (arith, length-take n mem))

-- A region in front of what is copied stays.
pub region-splice :
    (dst : List ℕ) (at_byte : ℕ) (src : List ℕ) (i m : ℕ)
    → i + m ≤ at_byte
    → at_byte ≤ length dst
    → take m (drop i (splice dst at_byte src)) ≡ take m (drop i dst)
unfolding splice
region-splice dst at_byte src i m h k = inside dst at_byte i m h k
  where
    inside :
        (xs : List ℕ) (n i m : ℕ)
        → i + m ≤ n
        → n ≤ length xs
        → take m (drop i (take n xs ++ (src ++ drop (at_byte + length src) dst)))
          ≡ take m (drop i xs)
    inside xs n zero zero h k = refl
    inside xs zero zero (suc m) h k = absurd (omega arith)
    inside [] (suc n) zero (suc m) h k = absurd (omega arith)
    inside (x ∷ xs) (suc n) zero (suc m) h k =
        ap (λ l. x ∷ l) (inside xs n zero m (omega arith) (omega arith))
    inside xs zero (suc i) m h k = absurd (omega arith)
    inside [] (suc n) (suc i) m h k = absurd (omega arith)
    inside (x ∷ xs) (suc n) (suc i) m h k = inside xs n i m (omega arith) (omega arith)

-- What is copied stands where it was put.
pub region-splice_self :
    (dst : List ℕ) (at_byte : ℕ) (src : List ℕ)
    → at_byte ≤ length dst
    → take (length src) (drop at_byte (splice dst at_byte src)) ≡ src
unfolding splice
region-splice_self dst at_byte src h = inside dst at_byte h
  where
    copied : (xs ys : List ℕ) → take (length xs) (xs ++ ys) ≡ xs
    copied [] ys = refl
    copied (x ∷ xs) ys = ap (λ l. x ∷ l) (copied xs ys)

    inside :
        (xs : List ℕ) (n : ℕ)
        → n ≤ length xs
        → take (length src) (drop n (take n xs ++ (src ++ drop (at_byte + length src) dst))) ≡ src
    inside xs zero h = copied src _
    inside [] (suc n) h = absurd (omega arith)
    inside (x ∷ xs) (suc n) h = inside xs n (omega arith)

pub take-length : (xs : List ℕ) → take (length xs) xs ≡ xs
take-length [] = refl
take-length (x ∷ xs) = ap (λ l. x ∷ l) (take-length xs)

-- What a copy leaves is the destination with the bytes over it, and they fit.
pub memcpy-Returns :
    (P : List ℕ → Type 0) (dst : List ℕ) (at_byte : ℕ) (src : List ℕ) (n : ℕ)
    → (n ≤ length src → at_byte + n ≤ length dst → P (splice dst at_byte (take n src)))
    → Returns P (memcpy dst at_byte src n)
unfolding memcpy
memcpy-Returns P dst at_byte src n k = elim (Bool-cases (ltb (length src) n)) [
  | inl e ↦ rw e tt
  | inr e ↦ elim (Bool-cases (ltb (length dst) (at_byte + n))) [
    | inl f ↦ rw (e, f) tt
    | inr f ↦ rw (e, f) (k (ltb→le (length src) n e) (ltb→le (length dst) (at_byte + n) f))
  ]
]
