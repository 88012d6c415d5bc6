-- ===== src/Reliable/Bytes.antt =====
-- reliable/reliable.c: little endian integers in a byte buffer. A writer is the list of bytes that it
-- stores at `*p`; a reader takes the memory from `*p` on, and returns its value with the memory
-- from the new `*p` on. Reading past the end of the memory is a fault.
use yojimbo_cmake.Common.{
  ℕ, zero, suc, ◌+◌, ◌*◌, ◌/◌, ◌%◌, ◌^◌, ◌≤◌, ◌≡◌, refl, List, [], ◌∷◌, ◌++◌, arith, length, take,
}
use yojimbo_cmake.Common.Results.{Result, ok, fault, ◌>>=◌, Safe}

-- `( value >> 8 * k ) & 0xFF`
abbrev pub byte_of : ℕ → ℕ → ℕ
byte_of value k = value / 256 ^ k % 256

unfoldable pub write_uint8 : ℕ → List ℕ
write_uint8 value = value ∷ []

unfoldable pub write_uint16 : ℕ → List ℕ
write_uint16 value = byte_of value 0 ∷ value / 256 ∷ []

unfoldable pub write_uint32 : ℕ → List ℕ
write_uint32 value = byte_of value 0 ∷ byte_of value 1 ∷ byte_of value 2 ∷ value / 256 ^ 3 ∷ []

unfoldable pub write_uint64 : ℕ → List ℕ
write_uint64 value =
    byte_of value 0
    ∷ byte_of value 1
    ∷ byte_of value 2
    ∷ byte_of value 3
    ∷ byte_of value 4
    ∷ byte_of value 5
    ∷ byte_of value 6
    ∷ value / 256 ^ 7
    ∷ []

-- Reading `byte_array` past its end is a fault.
unfoldable pub write_bytes : List ℕ → ℕ → Result (List ℕ)
write_bytes xs zero = ok []
write_bytes [] (suc n) = fault
write_bytes (x ∷ xs) (suc n) = do rest ← write_bytes xs n; ok (write_uint8 x ++ rest)

unfoldable pub read_uint8 : List ℕ → Result (ℕ × List ℕ)
read_uint8 [] = fault
read_uint8 (b ∷ p) = ok (b, p)

-- The shifted bytes share no bit, so `|=` is addition.
unfoldable pub read_uint16 : List ℕ → Result (ℕ × List ℕ)
read_uint16 mem = do (b0, p) ← read_uint8 mem; (b1, p) ← read_uint8 p; ok (b0 + b1 * 256, p)

unfoldable pub read_uint32 : List ℕ → Result (ℕ × List ℕ)
read_uint32 mem = do
  (b0, p) ← read_uint8 mem
  (b1, p) ← read_uint8 p
  (b2, p) ← read_uint8 p
  (b3, p) ← read_uint8 p
  ok (b0 + b1 * 256 + b2 * 256 ^ 2 + b3 * 256 ^ 3, p)

unfoldable pub read_uint64 : List ℕ → Result (ℕ × List ℕ)
read_uint64 mem = do
  (b0, p) ← read_uint8 mem
  (b1, p) ← read_uint8 p
  (b2, p) ← read_uint8 p
  (b3, p) ← read_uint8 p
  (b4, p) ← read_uint8 p
  (b5, p) ← read_uint8 p
  (b6, p) ← read_uint8 p
  (b7, p) ← read_uint8 p
  ok (
    b0
        + b1 * 256
        + b2 * 256 ^ 2
        + b3 * 256 ^ 3
        + b4 * 256 ^ 4
        + b5 * 256 ^ 5
        + b6 * 256 ^ 6
        + b7 * 256 ^ 7,
    p,
  )

unfoldable pub read_bytes : ℕ → List ℕ → Result (List ℕ × List ℕ)
read_bytes zero mem = ok ([], mem)
read_bytes (suc n) mem = do (b, p) ← read_uint8 mem; (bs, p) ← read_bytes n p; ok (b ∷ bs, p)

pub read_uint8_lem :
    (value : ℕ) (rest : List ℕ) → read_uint8 (write_uint8 value ++ rest) ≡ ok (value, rest)
unfolding write_uint8 read_uint8
read_uint8_lem value rest = refl

pub read_uint16_lem :
    (value : ℕ) (rest : List ℕ) → read_uint16 (write_uint16 value ++ rest) ≡ ok (value, rest)
unfolding write_uint16 read_uint16 read_uint8
read_uint16_lem value rest = ground arith

pub read_uint32_lem :
    (value : ℕ) (rest : List ℕ) → read_uint32 (write_uint32 value ++ rest) ≡ ok (value, rest)
unfolding write_uint32 read_uint32 read_uint8
read_uint32_lem value rest = ground arith

pub read_uint64_lem :
    (value : ℕ) (rest : List ℕ) → read_uint64 (write_uint64 value ++ rest) ≡ ok (value, rest)
unfolding write_uint64 read_uint64 read_uint8
read_uint64_lem value rest = ground arith

pub write_bytes_lem : (n : ℕ) (xs : List ℕ) → n ≤ length xs → write_bytes xs n ≡ ok (take n xs)
unfolding write_bytes write_uint8
write_bytes_lem zero xs h = refl
write_bytes_lem (suc n) [] h = absurd (omega arith)
write_bytes_lem (suc n) (x ∷ xs) h = rw (write_bytes_lem n xs (omega arith)) refl

pub read_bytes_lem : (xs rest : List ℕ) → read_bytes (length xs) (xs ++ rest) ≡ ok (xs, rest)
unfolding read_bytes read_uint8
read_bytes_lem [] rest = refl
read_bytes_lem (x ∷ xs) rest = rw (read_bytes_lem xs rest) refl

-- A reader takes `k` bytes of memory of length `n`, and does not fault where there are as many.
abbrev pub Took : ℕ → ℕ → ℕ × List ℕ → Type 0
Took k n r = length r.1 + k ≡ n

pub read_uint8-Took : (p : List ℕ) → 1 ≤ length p → Safe (Took 1 (length p)) (read_uint8 p)
unfolding read_uint8
read_uint8-Took [] h = absurd (omega arith)
read_uint8-Took (b ∷ p) h = omega arith

pub read_uint16-Took : (p : List ℕ) → 2 ≤ length p → Safe (Took 2 (length p)) (read_uint16 p)
unfolding read_uint16 read_uint8
read_uint16-Took [] h = absurd (omega arith)
read_uint16-Took (b ∷ []) h = absurd (omega arith)
read_uint16-Took (b ∷ c ∷ p) h = omega arith
