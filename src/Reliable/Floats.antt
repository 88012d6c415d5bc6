-- ===== src/Reliable/Floats.antt =====
-- The floating point arithmetic of the C implementation, which the statistics of reliable/reliable.c
-- use. It is not part of the repository, so it is a parameter.
use Prim.Native.Nat.{ℕ}
use mathlib.Core.Bool.{Bool}

pub record Floats : Type 1 where
  -- `float` and `double`
  pub Float : Type 0
  pub Double : Type 0
  -- the conversions of an `int`, which are also the constants 0.0f, 8.0f, 100.0f, 1000.0f
  pub float : ℕ → Float
  pub double : ℕ → Double
  pub to_float : Double → Float
  pub to_double : Float → Double
  -- 0.00001 and FLT_MAX
  pub tiny : Double
  pub flt_max : Double
  pub add_float : Float → Float → Float
  pub sub_float : Float → Float → Float
  pub mul_float : Float → Float → Float
  pub div_float : Float → Float → Float
  pub sub_double : Double → Double → Double
  pub mul_double : Double → Double → Double
  pub div_double : Double → Double → Double
  pub fabs : Double → Double
  pub float_less : Float → Float → Bool
  pub float_equal : Float → Float → Bool
  pub double_less : Double → Double → Bool
  pub double_equal : Double → Double → Bool
