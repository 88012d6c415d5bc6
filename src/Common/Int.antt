-- ===== src/Common/Int.antt =====
-- C `int` values that can be negative, under the names of the library's integers (which stand on
-- another ℕ).
use Prim.Native.Nat.{ℕ, suc, ◌-◌}
use mathlib.Core.Bool.{Bool, false}
use yojimbo_cmake.Common.Tests.{ltb, leb, ◌==◌, if◌then◌else◌}

-- `negsuc n` is -(n + 1).
pub data ℤ : Type 0 where
  pos : ℕ → ℤ
  negsuc : ℕ → ℤ

abbrev pub pos_part : ℤ → ℕ
pos_part (pos n) = n
pos_part (negsuc n) = 0

abbrev pub neg_part : ℤ → ℕ
neg_part (pos n) = 0
neg_part (negsuc n) = suc n

-- a - b, as an integer.
abbrev pub sub_ℕ : ℕ → ℕ → ℤ
sub_ℕ a b = if leb b a then pos (a - b) else negsuc (b - a - 1)

-- a < b, for a number `a`
abbrev pub ltb_ℤ : ℕ → ℤ → Bool
ltb_ℤ a (pos b) = ltb a b
ltb_ℤ a (negsuc b) = false

abbrev pub eq_ℤ : ℤ → ℕ → Bool
eq_ℤ (pos a) b = a == b
eq_ℤ (negsuc a) b = false
