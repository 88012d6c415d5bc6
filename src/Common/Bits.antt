-- ===== src/Common/Bits.antt =====
-- `bit_or` at variables: the law of the lowest digit, and the case of a single new top bit.
use Prim.Native.Nat.{
  ℕ, zero, suc, ◌+◌, ◌*◌, ◌/◌, ◌%◌, ◌^◌, ◌≤◌, ◌<◌, max, bit_or, digits, bit_or-bitwise,
}
use mathlib.Core.Path.{◌≡◌, refl}
use native.Mathlib.Omega.{arith}
use native.Mathlib.Nat.{pow-suc}

abbrev or_digits : ℕ → ℕ → ℕ → ℕ
or_digits n a b = digits (λ b. b) max n a b

or_digits_fuel : (n m a b : ℕ) → a ≤ n → a ≤ m → or_digits n a b ≡ or_digits m a b
or_digits_fuel zero zero a b p q = refl
or_digits_fuel zero (suc m) zero b p q = refl
or_digits_fuel zero (suc m) (suc a) b p q = absurd (omega arith)
or_digits_fuel (suc n) zero zero b p q = refl
or_digits_fuel (suc n) zero (suc a) b p q = absurd (omega arith)
or_digits_fuel (suc n) (suc m) zero b p q = refl
or_digits_fuel (suc n) (suc m) (suc a) b p q =
    omega (arith, or_digits_fuel n m (suc a / 2) (b / 2) (omega arith) (omega arith))

zero-bit_or : (b : ℕ) → bit_or 0 b ≡ b
zero-bit_or b = bit_or-bitwise 0 b

pub bit_or_step : (a b : ℕ) → bit_or a b ≡ bit_or (a / 2) (b / 2) * 2 + max (a % 2) (b % 2)
bit_or_step zero b = omega (arith, zero-bit_or b, zero-bit_or (b / 2))
bit_or_step (suc a) b = omega (
  arith,
  bit_or-bitwise (suc a) b,
  bit_or-bitwise (suc a / 2) (b / 2),
  or_digits_fuel a (suc a / 2) (suc a / 2) (b / 2) (omega arith) (omega arith),
)

-- A bit above all others of `a` is added.
pub bit_or_top : (i a : ℕ) → a < 2 ^ i → bit_or a (2 ^ i) ≡ a + 2 ^ i
bit_or_top zero a h = let e : a ≡ 0 = omega arith in rw e refl
bit_or_top (suc i) a h =
    let double : 2 ^ suc i ≡ 2 ^ i * 2 = pow-suc 2 i in
    let half : 2 ^ suc i / 2 ≡ 2 ^ i = omega (arith, double) in
    let step : bit_or a (2 ^ suc i) ≡ bit_or (a / 2) (2 ^ i) * 2 + max (a % 2) (2 ^ suc i % 2) =
      rw half at (bit_or_step a (2 ^ suc i)) in
    omega (arith, double, step, bit_or_top i (a / 2) (omega (arith, double)))
