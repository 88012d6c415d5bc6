-- ===== src/Reliable/Header.antt =====
-- reliable/reliable.c: the packet header, which carries a sequence number and the acks of the other
-- side, and leaves out what the reader can infer.
pub mod RoundTrip
pub mod Safety
mod Tests
use yojimbo_cmake.Common.{
  ℕ, ◌+◌, ◌-◌, ◌*◌, ◌/◌, ◌%◌, ◌^◌, ◌<◌, ◌≤◌, ◌≡◌, refl, Bool, true, false, not, List, [], ◌∷◌, ◌++◌,
  ltb, leb, ◌==◌, if◌then◌else◌, bit_or, arith, length,
}
use yojimbo_cmake.Common.Results.{Result, ok, invalid, fault, ◌>>=◌, ◌>>◌, refuse_if}
use yojimbo_cmake.Reliable.Sequence.{sub16}
use yojimbo_cmake.Reliable.Bytes.{byte_of, write_uint8, write_uint16, read_uint8, read_uint16}

abbrev pub max_packet_header_bytes : ℕ
max_packet_header_bytes = 9

pub record PacketHeader : Type 0 where
  pub sequence : ℕ
  pub ack : ℕ
  pub ack_bits : ℕ

-- Byte `k` of `ack_bits` is sent unless it is 0xFF.
abbrev pub sends_byte : ℕ → ℕ → Bool
sends_byte ack_bits k = not (byte_of ack_bits k == 255)

-- `prefix_byte |= (1<<bit)`, under a condition
abbrev pub or_bit : Bool → ℕ → ℕ → ℕ
or_bit condition prefix_byte bit = if condition then bit_or prefix_byte (2 ^ bit) else prefix_byte

pub prefix_of : Bool → Bool → Bool → Bool → Bool → ℕ
prefix_of c1 c2 c3 c4 c5 = or_bit c5 (or_bit c4 (or_bit c3 (or_bit c2 (or_bit c1 0 1) 2) 3) 4) 5

pub sequence_difference : PacketHeader → ℕ
sequence_difference h =
    if ltb h.sequence h.ack then h.sequence + 65536 - h.ack else h.sequence - h.ack

pub write_ack : PacketHeader → List ℕ
unfolding sequence_difference
write_ack h =
    if leb (sequence_difference h) 255
    then write_uint8 (sequence_difference h)
    else write_uint16 h.ack

pub write_ack_byte : ℕ → ℕ → List ℕ
write_ack_byte ack_bits k = if sends_byte ack_bits k then write_uint8 (byte_of ack_bits k) else []

-- The bytes stored at `packet_data`; their number is what the C function returns.
pub write_packet_header : PacketHeader → List ℕ
write_packet_header h =
    write_uint8 (
      prefix_of (sends_byte h.ack_bits 0) (sends_byte h.ack_bits 1) (sends_byte h.ack_bits 2)
        (sends_byte h.ack_bits 3) (leb (sequence_difference h) 255))
    ++ (write_uint16 h.sequence
        ++ (write_ack h
            ++ (write_ack_byte h.ack_bits 0
                ++ (write_ack_byte h.ack_bits 1
                    ++ (write_ack_byte h.ack_bits 2 ++ write_ack_byte h.ack_bits 3)))))

-- `prefix_byte & (1<<bit)`
abbrev pub has_bit : ℕ → ℕ → Bool
has_bit prefix_byte bit = prefix_byte / 2 ^ bit % 2 == 1

unfoldable pub read_ack : ℕ → ℕ → ℕ → List ℕ → Result (ℕ × List ℕ)
read_ack prefix_byte packet_bytes sequence p =
    if has_bit prefix_byte 5
    then (do
      refuse_if (ltb packet_bytes (3 + 1))
      (difference, p) ← read_uint8 p
      ok (sub16 sequence difference, p))
    else (do refuse_if (ltb packet_bytes (3 + 2)); read_uint16 p)

-- One round of the loop below
abbrev pub count : Bool → ℕ
count b = if b then 1 else 0

-- for ( i = 1; i <= 4; ++i )
pub expected_bytes : ℕ → ℕ
expected_bytes prefix_byte =
    count (has_bit prefix_byte 1)
    + count (has_bit prefix_byte 2)
    + count (has_bit prefix_byte 3)
    + count (has_bit prefix_byte 4)

-- `*ack_bits &= ~( 0xFF << 8 * k )` and `*ack_bits |= byte << 8 * k`
abbrev pub put_byte : ℕ → ℕ → ℕ → ℕ
put_byte ack_bits k byte = ack_bits - byte_of ack_bits k * 256 ^ k + byte * 256 ^ k

pub read_ack_byte : ℕ → ℕ → ℕ → List ℕ → Result (ℕ × List ℕ)
read_ack_byte prefix_byte k ack_bits p =
    if has_bit prefix_byte (k + 1)
    then (do (byte, p) ← read_uint8 p; ok (put_byte ack_bits k byte, p))
    else ok (ack_bits, p)

-- The memory from `packet_data` on and `packet_bytes`, to the header and the bytes it takes,
-- which the C function returns.
unfoldable pub read_packet_header : List ℕ → ℕ → Result (PacketHeader × ℕ)
read_packet_header packet_data packet_bytes = do
  refuse_if (ltb packet_bytes 3)
  (prefix_byte, p) ← read_uint8 packet_data
  refuse_if (has_bit prefix_byte 0)
  (sequence, p) ← read_uint16 p
  (ack, p) ← read_ack prefix_byte packet_bytes sequence p
  refuse_if (ltb packet_bytes ((length packet_data - length p) + expected_bytes prefix_byte))
  (ack_bits, p) ← read_ack_byte prefix_byte 0 0xFFFFFFFF p
  (ack_bits, p) ← read_ack_byte prefix_byte 1 ack_bits p
  (ack_bits, p) ← read_ack_byte prefix_byte 2 ack_bits p
  (ack_bits, p) ← read_ack_byte prefix_byte 3 ack_bits p
  ok (record { sequence = sequence; ack = ack; ack_bits = ack_bits }, length packet_data - length p)
