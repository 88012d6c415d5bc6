-- ===== src/Reliable/SequenceBuffer/AckBits.antt =====
-- `reliable_sequence_buffer_generate_ack_bits`: what each bit of the result says.
use yojimbo_cmake.Common.{
  ℕ, zero, suc, ◌+◌, ◌*◌, ◌/◌, ◌%◌, ◌^◌, ◌≤◌, ◌<◌, ◌≡◌, refl, sym, ◌∙◌, ap, Bool-cases, inl, inr,
  if◌then◌else◌, arith, bit_or,
}
use native.Mathlib.Nat.{pow-suc, pow-succ', pow-le-pow_right, div-div-eq-div-mul, add-zero}
use Prim.Native.Nat.add
use native.Mathlib.Numerals.{add-one}
use yojimbo_cmake.Common.Bits.{bit_or_top}
use yojimbo_cmake.Reliable.Sequence.{sub16}
use yojimbo_cmake.Reliable.SequenceBuffer.{SequenceBuffer, exists, ack_bits_loop, generate_ack_bits}

module _ {ℓ} {A : Type ℓ} (b : SequenceBuffer A) (ack : ℕ) where
  -- bit `i` as a number
  abbrev digit : ℕ → ℕ
  digit i = if exists b (sub16 ack i) then 1 else 0

  -- the bits from `i` on, with bit `i` lowest
  weigh : ℕ → ℕ → ℕ
  weigh zero i = 0
  weigh (suc rounds) i = digit i + 2 * weigh rounds (i + 1)

  add_digit :
      (i bits : ℕ)
      → bits < 2 ^ i
      → (if exists b (sub16 ack i) then bit_or bits (2 ^ i) else bits) ≡ bits + digit i * 2 ^ i
  add_digit i bits h = elim (Bool-cases (exists b (sub16 ack i))) [
    | inl e ↦ rw e (omega (arith, bit_or_top i bits h))
    | inr e ↦ rw e (omega arith)
  ]

  loop-weigh :
      (rounds i mask bits : ℕ)
      → i + rounds ≤ 32
      → mask ≡ 2 ^ i % 2 ^ 32
      → bits < 2 ^ i
      → ack_bits_loop rounds b ack i mask bits ≡ bits + 2 ^ i * weigh rounds i
  unfolding ack_bits_loop weigh
  loop-weigh zero i mask bits h e k = omega arith
  loop-weigh (suc rounds) i mask bits h e k =
      rw (whole, add_digit i bits k)
        (loop-weigh rounds (i + 1) (2 ^ i * 2 % 2 ^ 32) (bits + digit i * 2 ^ i) (omega arith)
            (ap (λ t. t % 2 ^ 32) (sym double)) below
          ∙ omega (arith, ap (λ t. t * weigh rounds (i + 1)) double))
    where
      whole : mask ≡ 2 ^ i
      whole =
          omega (arith, e, pow-le-pow_right {n = 2} (omega arith) {i = i} {j = 31} (omega arith))

      double : 2 ^ (i + 1) ≡ 2 ^ i * 2
      double = rw add-one (pow-suc 2 i)

      below : bits + digit i * 2 ^ i < 2 ^ (i + 1)
      below = elim (Bool-cases (exists b (sub16 ack i))) [
        | inl p ↦ rw p (omega (arith, double))
        | inr p ↦ rw p (omega (arith, double))
      ]

  digit_small : (i : ℕ) → digit i ≤ 1
  digit_small i = elim (Bool-cases (exists b (sub16 ack i))) [
    | inl p ↦ rw p (omega arith)
    | inr p ↦ rw p (omega arith)
  ]

  weigh-digit : (rounds i k : ℕ) → k < rounds → weigh rounds i / 2 ^ k % 2 ≡ digit (i + k)
  unfolding weigh
  weigh-digit zero i k h = absurd (omega arith)
  weigh-digit (suc rounds) i zero h = omega (arith, digit_small i, ap digit (add-zero i))
  weigh-digit (suc rounds) i (suc k) h =
      rw (pow-succ' 2 k, ← div-div-eq-div-mul (digit i + 2 * weigh rounds (i + 1)) 2 (2 ^ k), half)
        (weigh-digit rounds (i + 1) k (omega arith) ∙ ap digit next)
    where
      half : (digit i + 2 * weigh rounds (i + 1)) / 2 ≡ weigh rounds (i + 1)
      half = omega (arith, digit_small i)

      next : i + 1 + k ≡ i + suc k
      next = omega arith

  weigh-lt : (rounds i : ℕ) → weigh rounds i < 2 ^ rounds
  unfolding weigh
  weigh-lt zero i = omega arith
  weigh-lt (suc rounds) i = omega (arith, digit_small i, weigh-lt rounds (i + 1), pow-suc 2 rounds)

-- `ack` is the newest sequence number, and bit `k` of `ack_bits` is set exactly when the buffer
-- holds the number `k` before it; `ack_bits` is a uint32_t.
pub generate_ack_bits_lem {ℓ} :
    {A : Type ℓ} (b : SequenceBuffer A) (k : ℕ)
    → k < 32
    → let (ack, bits) = generate_ack_bits b in
      (ack ≡ sub16 b.sequence 1)
      × (bits < 2 ^ 32)
      × (bits / 2 ^ k % 2 ≡ (if exists b (sub16 ack k) then 1 else 0))
unfolding generate_ack_bits
generate_ack_bits_lem b k h = (refl, rw total (weigh-lt b ack 32 0), rw total digits)
  where
    ack : ℕ
    ack = sub16 b.sequence 1

    total : ack_bits_loop 32 b ack 0 1 0 ≡ weigh b ack 32 0
    total = omega (arith, loop-weigh b ack 32 0 1 0 (omega arith) refl (omega arith))

    digits : weigh b ack 32 0 / 2 ^ k % 2 ≡ (if exists b (sub16 ack k) then 1 else 0)
    digits = rw (add.zero k) at (weigh-digit b ack 32 0 k h)
