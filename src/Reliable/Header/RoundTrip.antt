-- ===== src/Reliable/Header/RoundTrip.antt =====
-- `reliable_read_packet_header` reads back what `reliable_write_packet_header` wrote.
use yojimbo_cmake.Common.{
  ℕ, ◌+◌, ◌-◌, ◌%◌, ◌^◌, ◌<◌, ◌≤◌, ◌≡◌, refl, ap, Bool, false, List, [], ◌∷◌, ◌++◌, ltb, leb,
  le→ltb, if◌then◌else◌, Bool-cases, inl, inr, arith, length, length-append, append_assoc,
}
use yojimbo_cmake.Common.Results.{ok}
use yojimbo_cmake.Reliable.Bytes.{
  byte_of, write_uint8, write_uint16, read_uint8, read_uint16, read_uint16_lem,
}
use yojimbo_cmake.Reliable.Header.{
  PacketHeader, max_packet_header_bytes, sends_byte, prefix_of, sequence_difference, write_ack,
  write_ack_byte, write_packet_header, has_bit, read_ack, count, expected_bytes, put_byte,
  read_ack_byte, read_packet_header,
}

pub record IsValid (h : PacketHeader) : Type 0 where
  pub sequence_in : h.sequence < 65536
  pub ack_in : h.ack < 65536
  pub ack_bits_in : h.ack_bits < 2 ^ 32

record PrefixBits (c1 c2 c3 c4 c5 : Bool) : Type 0 where
  bit0 : has_bit (prefix_of c1 c2 c3 c4 c5) 0 ≡ false
  bit1 : has_bit (prefix_of c1 c2 c3 c4 c5) 1 ≡ c1
  bit2 : has_bit (prefix_of c1 c2 c3 c4 c5) 2 ≡ c2
  bit3 : has_bit (prefix_of c1 c2 c3 c4 c5) 3 ≡ c3
  bit4 : has_bit (prefix_of c1 c2 c3 c4 c5) 4 ≡ c4
  bit5 : has_bit (prefix_of c1 c2 c3 c4 c5) 5 ≡ c5
  counted : expected_bytes (prefix_of c1 c2 c3 c4 c5) ≡ count c1 + count c2 + count c3 + count c4

-- Each bit of the prefix is the condition that it was set under.
prefix_bits : (c1 c2 c3 c4 c5 : Bool) → PrefixBits c1 c2 c3 c4 c5
unfolding prefix_of expected_bytes
prefix_bits c1 c2 c3 c4 c5 = ground arith

read_ack_lem :
    (h : PacketHeader) (prefix_byte n : ℕ) (p : List ℕ)
    → IsValid h
    → has_bit prefix_byte 5 ≡ leb (sequence_difference h) 255
    → 3 + length (write_ack h) ≤ n
    → read_ack prefix_byte n h.sequence (write_ack h ++ p) ≡ ok (h.ack, p)
unfolding read_ack write_ack sequence_difference write_uint8 write_uint16 read_uint16 read_uint8
read_ack_lem h prefix_byte n p v e room = ground arith

read_ack_byte_lem :
    (prefix_byte k bits acc : ℕ) (p : List ℕ)
    → has_bit prefix_byte (k + 1) ≡ sends_byte bits k
    → read_ack_byte prefix_byte k acc (write_ack_byte bits k ++ p)
      ≡ ok (if sends_byte bits k then put_byte acc k (byte_of bits k) else acc, p)
unfolding read_ack_byte write_ack_byte write_uint8 read_uint8
read_ack_byte_lem prefix_byte k bits acc p e = elim (Bool-cases (sends_byte bits k)) [
  | inl c ↦ rw (e, c) refl
  | inr c ↦ rw (e, c) refl
]

-- What `read_ack_byte` has made of `ack_bits` after byte `k`, if it was `acc` before.
abbrev taken : ℕ → ℕ → ℕ → ℕ
taken bits k acc = if sends_byte bits k then put_byte acc k (byte_of bits k) else acc

-- The bytes that are not sent are 0xFF, as the reader takes them to be.
all_taken :
    (bits : ℕ)
    → bits < 2 ^ 32
    → taken bits 3 (taken bits 2 (taken bits 1 (taken bits 0 0xFFFFFFFF))) ≡ bits
all_taken bits h = ground arith

length-write_ack_byte : (bits k : ℕ) → length (write_ack_byte bits k) ≡ count (sends_byte bits k)
unfolding write_ack_byte write_uint8
length-write_ack_byte bits k = ground arith

length-write_ack :
    (h : PacketHeader) → length (write_ack h) ≡ (if leb (sequence_difference h) 255 then 1 else 2)
unfolding write_ack write_uint8 write_uint16
length-write_ack h = ground arith

module _ (h : PacketHeader) where
  abbrev flag : ℕ → Bool
  flag k = sends_byte h.ack_bits k

  abbrev prefix : ℕ
  prefix = prefix_of (flag 0) (flag 1) (flag 2) (flag 3) (leb (sequence_difference h) 255)

  abbrev sent_bytes : ℕ
  sent_bytes = count (flag 0) + count (flag 1) + count (flag 2) + count (flag 3)

  abbrev ack_bytes : List ℕ → List ℕ
  ack_bytes rest =
      write_ack_byte h.ack_bits 0
      ++ (write_ack_byte h.ack_bits 1
          ++ (write_ack_byte h.ack_bits 2 ++ (write_ack_byte h.ack_bits 3 ++ rest)))

  -- The header and what follows it.
  header_then :
      (rest : List ℕ)
      → write_packet_header h ++ rest
        ≡ prefix ∷ (write_uint16 h.sequence ++ (write_ack h ++ ack_bytes rest))
  unfolding write_packet_header write_uint8
  header_then rest = simp append_assoc

  length-ack_bytes : (rest : List ℕ) → length (ack_bytes rest) ≡ sent_bytes + length rest
  length-ack_bytes rest = omega (
    arith,
    length-append {0} (write_ack_byte h.ack_bits 0) _,
    length-append {0} (write_ack_byte h.ack_bits 1) _,
    length-append {0} (write_ack_byte h.ack_bits 2) _,
    length-append {0} (write_ack_byte h.ack_bits 3) rest,
    length-write_ack_byte h.ack_bits 0,
    length-write_ack_byte h.ack_bits 1,
    length-write_ack_byte h.ack_bits 2,
    length-write_ack_byte h.ack_bits 3,
  )

  length-header_then :
      (rest : List ℕ)
      → length (prefix ∷ (write_uint16 h.sequence ++ (write_ack h ++ ack_bytes rest)))
        ≡ 3 + length (write_ack h) + sent_bytes + length rest
  unfolding write_uint16
  length-header_then rest =
      omega (arith, length-append (write_ack h) (ack_bytes rest), length-ack_bytes rest)

  pub header_length : length (write_packet_header h) ≡ 3 + length (write_ack h) + sent_bytes
  header_length = omega (arith, length-header_then [], ap length (header_then []), append-length)
    where
      append-length : length (write_packet_header h ++ []) ≡ length (write_packet_header h)
      append-length = omega (arith, length-append (write_packet_header h) [])

-- The header takes four to nine bytes, so it fits in what the senders reserve for it.
pub length-write_packet_header :
    (h : PacketHeader)
    → (4 ≤ length (write_packet_header h))
      × (length (write_packet_header h) ≤ max_packet_header_bytes)
length-write_packet_header h = ground (arith, header_length h, length-write_ack h)

-- A header with 16 bit numbers and 32 ack bits is read back, with its length, from a packet that
-- begins with it and is long enough.
pub read_packet_header_lem :
    (h : PacketHeader) (rest : List ℕ) (n : ℕ)
    → IsValid h
    → length (write_packet_header h) ≤ n
    → read_packet_header (write_packet_header h ++ rest) n ≡ ok (h, length (write_packet_header h))
unfolding read_packet_header read_uint8
read_packet_header_lem h rest n v room =
    rw
      (
        header_then h rest,
        le→ltb n 3 (omega (arith, length-write_packet_header h)),
        bit0,
        read_uint16_lem,
        read_ack_lem h (prefix h) n (ack_bytes h rest) v bit5 (omega (arith, header_length h)),
        fits,
        read_ack_byte_lem (prefix h) 0 bits 0xFFFFFFFF _ bit1,
        read_ack_byte_lem (prefix h) 1 bits (taken bits 0 0xFFFFFFFF) _ bit2,
        read_ack_byte_lem (prefix h) 2 bits (taken bits 1 (taken bits 0 0xFFFFFFFF)) _ bit3,
        read_ack_byte_lem (prefix h) 3 bits (taken bits 2 (taken bits 1 (taken bits 0 0xFFFFFFFF)))
            rest bit4,
        all_taken bits v.ack_bits_in,
      )
      (ap (λ m. ok (h, m)) consumed)
  where
    open prefix_bits
        (flag h 0)
        (flag h 1)
        (flag h 2)
        (flag h 3)
        (leb (sequence_difference h) 255) use {bit0, bit1, bit2, bit3, bit4, bit5, counted}

    bits : ℕ
    bits = h.ack_bits

    mem : List ℕ
    mem = prefix h ∷ (write_uint16 h.sequence ++ (write_ack h ++ ack_bytes h rest))

    fits : ltb n (length mem - length (ack_bytes h rest) + expected_bytes (prefix h)) ≡ false
    fits = le→ltb n _ (
        omega (arith, header_length h, length-header_then h rest, length-ack_bytes h rest, counted))

    consumed : length mem - length rest ≡ length (write_packet_header h)
    consumed = omega (arith, header_length h, length-header_then h rest)

-- A packet header begins with an even byte.
pub write_packet_header-even :
    (h : PacketHeader)
    → (b : ℕ) × (rest : List ℕ) × (write_packet_header h ≡ b ∷ rest) × (b % 2 ≡ 0)
unfolding write_packet_header write_uint8
write_packet_header-even h = (
  _,
  _,
  refl,
  even _
      (prefix_bits (sends_byte h.ack_bits 0) (sends_byte h.ack_bits 1) (sends_byte h.ack_bits 2)
        (sends_byte h.ack_bits 3) (leb (sequence_difference h) 255)).bit0,
)
  where
    even : (b : ℕ) → has_bit b 0 ≡ false → b % 2 ≡ 0
    even b e = ground arith
