-- ===== src/Netcode/Address/Wire.antt =====
-- netcode/netcode.c: the addresses of servers as both kinds of connect token carry them. The loops
-- of the two writers are the same code, and so are those of the two readers.
use yojimbo_cmake.Common.{
  ℕ, zero, suc, ◌*◌, ◌≤◌, ◌≡◌, refl, List, [], ◌∷◌, ◌++◌, append_assoc, ◌==◌, if◌then◌else◌, length,
  length-append, All, arith,
}
use yojimbo_cmake.Common.Results.{Result, ok, invalid, fault, ◌>>=◌}
use yojimbo_cmake.Reliable.Bytes
use yojimbo_cmake.Reliable.Bytes.{read_uint8_lem, read_uint16_lem}
use yojimbo_cmake.Netcode.Bytes.{
  write_uint8, write_uint16, write_bytes, read_uint8, read_uint16, read_bytes, write_array,
  read_array,
}
use yojimbo_cmake.Netcode.Address.{Address, type_none, ipv4, ipv6}

-- for ( j = 0; j < 8; ++j ), with the parts that are left
unfoldable pub write_words : List ℕ → ℕ → Result (List ℕ)
write_words xs zero = ok []
write_words [] (suc n) = fault
write_words (x ∷ xs) (suc n) = do rest ← write_words xs n; ok (write_uint16 x ++ rest)

-- An address of another type writes nothing: the assertion is off.
unfoldable pub write_address : Address → Result (List ℕ)
write_address type_none = ok []
write_address (ipv4 parts port) = do
  bytes ← write_bytes parts 4
  ok (write_uint8 1 ++ (bytes ++ write_uint16 port))
write_address (ipv6 parts port) = do
  bytes ← write_words parts 8
  ok (write_uint8 2 ++ (bytes ++ write_uint16 port))

-- The loop over `num_server_addresses` addresses, which are those of the list.
unfoldable pub write_addresses : List Address → Result (List ℕ)
write_addresses [] = ok []
write_addresses (a ∷ rest) = do
  bytes ← write_address a
  more ← write_addresses rest
  ok (bytes ++ more)

unfoldable pub read_words : ℕ → List ℕ → Result (List ℕ × List ℕ)
read_words zero p = ok ([], p)
read_words (suc n) p = do (x, p) ← read_uint16 p; (xs, p) ← read_words n p; ok (x ∷ xs, p)

unfoldable pub read_parts : ℕ → List ℕ → Result (Address × List ℕ)
read_parts address_type p =
    if address_type == 1
    then (do (parts, p) ← read_bytes 4 p; (port, p) ← read_uint16 p; ok (ipv4 parts port, p))
    else if address_type == 2
    then (do (parts, p) ← read_words 8 p; (port, p) ← read_uint16 p; ok (ipv6 parts port, p))
    else invalid

unfoldable pub read_address : List ℕ → Result (Address × List ℕ)
read_address p = do (address_type, p) ← read_uint8 p; read_parts address_type p

unfoldable pub read_addresses : ℕ → List ℕ → Result (List Address × List ℕ)
read_addresses zero p = ok ([], p)
read_addresses (suc n) p = do
  (a, p) ← read_address p
  (rest, p) ← read_addresses n p
  ok (a ∷ rest, p)

-- An address that can be sent: of type IPv4 or IPv6, with as many parts as the type has.
abbrev pub IsSendable : Address → Type 0
IsSendable type_none = ⊥
IsSendable (ipv4 parts port) = length parts ≡ 4
IsSendable (ipv6 parts port) = length parts ≡ 8

words : List ℕ → List ℕ
words [] = []
words (x ∷ xs) = write_uint16 x ++ words xs

write_words_lem : (n : ℕ) (xs : List ℕ) → length xs ≡ n → write_words xs n ≡ ok (words xs)
unfolding write_words words
write_words_lem zero [] h = refl
write_words_lem zero (x ∷ xs) h = absurd (omega arith)
write_words_lem (suc n) [] h = absurd (omega arith)
write_words_lem (suc n) (x ∷ xs) h = rw (write_words_lem n xs (omega arith)) refl

read_words_lem :
    (n : ℕ) (xs rest : List ℕ) → length xs ≡ n → read_words n (words xs ++ rest) ≡ ok (xs, rest)
unfolding read_words words
read_words_lem zero [] rest h = refl
read_words_lem zero (x ∷ xs) rest h = absurd (omega arith)
read_words_lem (suc n) [] rest h = absurd (omega arith)
read_words_lem (suc n) (x ∷ xs) rest h =
    rw (append_assoc (write_uint16 x) (words xs) rest, read_uint16_lem x (words xs ++ rest))
      (rw (read_words_lem n xs rest (omega arith)) refl)

-- What an address takes on the wire.
pub wire : Address → List ℕ
unfolding words
wire type_none = []
wire (ipv4 parts port) = write_uint8 1 ++ (parts ++ write_uint16 port)
wire (ipv6 parts port) = write_uint8 2 ++ (words parts ++ write_uint16 port)

write_address_lem : (a : Address) → IsSendable a → write_address a ≡ ok (wire a)
unfolding write_address wire
write_address_lem type_none h = absurd h
write_address_lem (ipv4 parts port) h = rw (write_array 4 parts h) refl
write_address_lem (ipv6 parts port) h = rw (write_words_lem 8 parts h) refl

read_address_lem :
    (a : Address) (rest : List ℕ) → IsSendable a → read_address (wire a ++ rest) ≡ ok (a, rest)
unfolding read_address read_parts wire
read_address_lem type_none rest h = absurd h
read_address_lem (ipv4 parts port) rest h = simp (
  append_assoc,
  read_uint8_lem,
  read_uint16_lem,
  read_array 4 parts (write_uint16 port ++ rest) h,
)
read_address_lem (ipv6 parts port) rest h = simp (
  append_assoc,
  read_uint8_lem,
  read_uint16_lem,
  read_words_lem 8 parts (write_uint16 port ++ rest) h,
)

pub wires : List Address → List ℕ
wires [] = []
wires (a ∷ rest) = wire a ++ wires rest

-- Addresses that can be sent are written, and read back from a packet in which they stand.
pub write_addresses_lem : (l : List Address) → All IsSendable l → write_addresses l ≡ ok (wires l)
unfolding write_addresses wires
write_addresses_lem [] h = refl
write_addresses_lem (a ∷ rest) (ha, h) =
    rw (write_address_lem a ha, write_addresses_lem rest h) refl

pub read_addresses_lem :
    (l : List Address) (p : List ℕ)
    → All IsSendable l
    → read_addresses (length l) (wires l ++ p) ≡ ok (l, p)
unfolding read_addresses wires
read_addresses_lem [] p h = refl
read_addresses_lem (a ∷ rest) p (ha, h) =
    rw (append_assoc (wire a) (wires rest) p, read_address_lem a (wires rest ++ p) ha)
      (rw (read_addresses_lem rest p h) refl)

length-words : (xs : List ℕ) → length (words xs) ≡ 2 * length xs
unfolding words Bytes.write_uint16
length-words [] = omega arith
length-words (x ∷ xs) = omega (arith, length-words xs)

-- An address takes 7 or 19 bytes.
length-wire : (a : Address) → IsSendable a → length (wire a) ≤ 19
unfolding wire Bytes.write_uint8 Bytes.write_uint16
length-wire type_none h = absurd h
length-wire (ipv4 parts port) h = omega (arith, length-append parts (write_uint16 port))
length-wire (ipv6 parts port) h =
    omega (arith, length-append (words parts) (write_uint16 port), length-words parts)

pub length-wires : (l : List Address) → All IsSendable l → length (wires l) ≤ 19 * length l
unfolding wires
length-wires [] h = omega arith
length-wires (a ∷ rest) (ha, h) =
    omega (arith, length-append (wire a) (wires rest), length-wire a ha, length-wires rest h)
