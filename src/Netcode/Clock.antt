-- ===== src/Netcode/Clock.antt =====
-- The arithmetic of `double` that the timeouts of netcode/netcode.c use. It is not part of the
-- repository, so it is a parameter.
use mathlib.Core.Bool.{Bool}
use yojimbo_cmake.Common.Int.{ℤ}

pub record Clock : Type 1 where
  pub Time : Type 0
  -- 0.0, -1.0 and -1000.0
  pub origin : Time
  pub never : Time
  pub long_ago : Time
  pub add_int : Time → ℤ → Time
  pub before : Time → Time → Bool
  pub before_or_at : Time → Time → Bool
