-- ===== src/Reliable/Sequence.antt =====
-- reliable/reliable.c: the comparison of 16 bit packet sequence numbers that wrap around.
mod Tests
use yojimbo_cmake.Common.{
  ℕ, ◌+◌, ◌-◌, ◌%◌, ◌≤◌, ◌<◌, ◌≡◌, ◌↔◌, ◌⊎◌, ◌≢◌, Bool, true, false, ◌&&◌, ◌||◌, ltb, leb, arith,
}

-- `(uint16_t)( a + b )` and `(uint16_t)( a - b )`
abbrev pub add16 : ℕ → ℕ → ℕ
add16 a b = (a + b) % 65536

abbrev pub sub16 : ℕ → ℕ → ℕ
sub16 a b = (a + 65536 - b % 65536) % 65536

unfoldable pub sequence_greater_than : ℕ → ℕ → Bool
sequence_greater_than s1 s2 =
    (ltb s2 s1 && leb (s1 - s2) 32768) || (ltb s1 s2 && ltb 32768 (s2 - s1))

unfoldable pub sequence_less_than : ℕ → ℕ → Bool
sequence_less_than s1 s2 = sequence_greater_than s2 s1

-- How far `a` lies behind `b`, going up and round at 65536.
abbrev pub distance : ℕ → ℕ → ℕ
distance a b = sub16 b a

-- The test in terms of the wrapped distance: `s1` is newer than `s2` exactly when it lies 1 to
-- 32767 steps after it, or 32768 steps after it with no wrap in between.
pub greater_iff_distance :
    (s1 s2 : ℕ)
    → s1 < 65536
    → s2 < 65536
    → (sequence_greater_than s1 s2 ≡ true)
      ↔ ((1 ≤ distance s2 s1) × (distance s2 s1 ≤ 32767) ⊎ (s1 ≡ s2 + 32768))
unfolding sequence_greater_than
greater_iff_distance s1 s2 h1 h2 = (λ e. ground arith, λ e. ground arith)

-- Of two distinct sequence numbers exactly one is greater.
pub greater_or_less :
    (s1 s2 : ℕ)
    → s1 < 65536
    → s2 < 65536
    → s1 ≢ s2
    → ((sequence_greater_than s1 s2 ≡ true) × (sequence_less_than s1 s2 ≡ false))
      ⊎ ((sequence_greater_than s1 s2 ≡ false) × (sequence_less_than s1 s2 ≡ true))
unfolding sequence_greater_than sequence_less_than
greater_or_less s1 s2 h1 h2 ne = ground arith
