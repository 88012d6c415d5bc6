-- ===== src/Netcode/Packet/Sequence.antt =====
-- netcode/netcode.c: the sequence number of an encrypted packet, in as few bytes as it needs.
use yojimbo_cmake.Common.{
  ℕ, zero, suc, ◌+◌, ◌-◌, ◌*◌, ◌/◌, ◌%◌, ◌^◌, ◌<◌, ◌≤◌, ◌≡◌, ◌⊎◌, inl, inr, refl, ap, subst, dec_lt,
  Bool-cases, true, false, ==_ne, List, [], ◌++◌, ◌==◌, if◌then◌else◌, length, arith,
}
use native.Mathlib.Nat.{pow-suc, one-le-pow, div-eq_of_lt}
use yojimbo_cmake.Common.Results.{◌>>=◌, Result, ok}
use yojimbo_cmake.Reliable.Bytes
use yojimbo_cmake.Reliable.Bytes.{byte_of}
use yojimbo_cmake.Netcode.Bytes.{write_uint8, read_uint8}

-- The loop from the byte with number `k` down: the mask selects a byte, and the first one that is
-- not 0 decides.
unfoldable pub required_from : ℕ → ℕ → ℕ
required_from zero sequence = 1
required_from (suc k) sequence =
    let rest = required_from k sequence in
    if byte_of sequence (suc k) == 0 then rest else suc (suc k)

unfoldable pub sequence_number_bytes_required : ℕ → ℕ
sequence_number_bytes_required sequence = required_from 7 sequence

-- for ( i = 0; i < sequence_bytes; ++i ), with the rounds that are left
unfoldable pub write_sequence : ℕ → ℕ → List ℕ
write_sequence zero sequence = []
write_sequence (suc n) sequence = write_uint8 (sequence % 256) ++ write_sequence n (sequence / 256)

-- The same on the side of the reader: the shifted bytes share no bit, so `|=` is addition, and each
-- byte that follows counts 256 times as much.
unfoldable pub read_sequence : ℕ → List ℕ → Result (ℕ × List ℕ)
read_sequence zero p = ok (0, p)
read_sequence (suc n) p = do
  (value, p) ← read_uint8 p
  (rest, p) ← read_sequence n p
  ok (value + rest * 256, p)

-- The highest byte of a number below 256 times `p` tells whether it is below `p`.
high_byte :
    (p s : ℕ)
    → 0 < p
    → s < p * 256
    → ((s / p % 256 == 0) ≡ true → s < p) × ((s / p % 256 == 0) ≡ false → p ≤ s)
high_byte p s hp h = (
  λ e. grind arith,
  λ e. elim (dec_lt s p) [ yes lt ↦ absurd (clash lt e) | no ge ↦ omega arith ],
)
  where
    clash : s < p → (s / p % 256 == 0) ≡ false → ⊥
    clash lt e = omega (arith, (==_ne (s / p % 256) 0).0 e, div-eq_of_lt lt)

required_bounds :
    (k s : ℕ)
    → s < 256 ^ suc k
    → let n = required_from k s in
      (1 ≤ n) × (n ≤ suc k) × (s < 256 ^ n) × ((n ≡ 1) ⊎ (256 ^ (n - 1) ≤ s))
unfolding required_from
required_bounds zero s h = (omega arith, omega arith, h, inl refl)
required_bounds (suc k) s h = elim (Bool-cases (byte_of s (suc k) == 0)) [
  | inl e ↦
      let (a, b, c, d) =
        required_bounds k s
          ((high_byte (256 ^ suc k) s (one-le-pow (suc k) 256 (omega arith)) below).0 e) in
      rw e (a, omega arith, c, d)
  | inr e ↦ rw e (
    omega arith,
    omega arith,
    h,
    inr (
        subst (λ m. 256 ^ m ≤ s) (omega arith)
          ((high_byte (256 ^ suc k) s (one-le-pow (suc k) 256 (omega arith)) below).1 e)),
  )
]
  where
    below : s < 256 ^ suc k * 256
    below = rw (← pow-suc 256 (suc k)) h

-- A uint64_t gets one to eight bytes, enough for it and no more than it needs.
pub sequence_number_bytes_required_lem :
    (s : ℕ)
    → s < 2 ^ 64
    → let n = sequence_number_bytes_required s in
      (1 ≤ n) × (n ≤ 8) × (s < 256 ^ n) × ((n ≡ 1) ⊎ (256 ^ (n - 1) ≤ s))
unfolding sequence_number_bytes_required
sequence_number_bytes_required_lem s h = required_bounds 7 s h

pub length-write_sequence : (n s : ℕ) → length (write_sequence n s) ≡ n
unfolding write_sequence Bytes.write_uint8
length-write_sequence zero s = refl
length-write_sequence (suc n) s = ap suc (length-write_sequence n (s / 256))

quotient_below : (n s : ℕ) → s < 256 ^ suc n → s / 256 < 256 ^ n
quotient_below n s h = grind arith

pub read_sequence_lem :
    (n s : ℕ) (rest : List ℕ)
    → s < 256 ^ n
    → read_sequence n (write_sequence n s ++ rest) ≡ ok (s, rest)
unfolding read_sequence write_sequence Bytes.write_uint8 Bytes.read_uint8
read_sequence_lem zero s rest h = ground arith
read_sequence_lem (suc n) s rest h =
    rw (read_sequence_lem n (s / 256) rest (quotient_below n s h))
      (ap (λ x. ok (x, rest)) (omega arith))
