-- ===== src/Netcode/Bytes.antt =====
-- netcode/netcode.c: little endian integers in a byte buffer. The functions are those of
-- reliable/reliable.c under other names, and so are their definitions.
use yojimbo_cmake.Common.{ℕ, zero, suc, ◌≡◌, subst, refl, List, [], ◌∷◌, ◌++◌, length, arith}
use yojimbo_cmake.Common.Results.{Result, ok}
use yojimbo_cmake.Reliable.Bytes

abbrev pub write_uint8 : ℕ → List ℕ
write_uint8 = Bytes.write_uint8

abbrev pub write_uint16 : ℕ → List ℕ
write_uint16 = Bytes.write_uint16

abbrev pub write_uint32 : ℕ → List ℕ
write_uint32 = Bytes.write_uint32

abbrev pub write_uint64 : ℕ → List ℕ
write_uint64 = Bytes.write_uint64

abbrev pub write_bytes : List ℕ → ℕ → Result (List ℕ)
write_bytes = Bytes.write_bytes

abbrev pub read_uint8 : List ℕ → Result (ℕ × List ℕ)
read_uint8 = Bytes.read_uint8

abbrev pub read_uint16 : List ℕ → Result (ℕ × List ℕ)
read_uint16 = Bytes.read_uint16

abbrev pub read_uint32 : List ℕ → Result (ℕ × List ℕ)
read_uint32 = Bytes.read_uint32

abbrev pub read_uint64 : List ℕ → Result (ℕ × List ℕ)
read_uint64 = Bytes.read_uint64

abbrev pub read_bytes : ℕ → List ℕ → Result (List ℕ × List ℕ)
read_bytes = Bytes.read_bytes

-- An array is written whole, and read back.
pub write_array : (n : ℕ) (xs : List ℕ) → length xs ≡ n → write_bytes xs n ≡ ok xs
unfolding Bytes.write_bytes Bytes.write_uint8
write_array zero [] h = refl
write_array zero (x ∷ xs) h = absurd (omega arith)
write_array (suc n) [] h = absurd (omega arith)
write_array (suc n) (x ∷ xs) h = rw (write_array n xs (omega arith)) refl

pub read_array :
    (n : ℕ) (xs rest : List ℕ) → length xs ≡ n → read_bytes n (xs ++ rest) ≡ ok (xs, rest)
read_array n xs rest h =
    subst (λ k. read_bytes k (xs ++ rest) ≡ ok (xs, rest)) h (Bytes.read_bytes_lem xs rest)
