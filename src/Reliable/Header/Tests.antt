-- ===== src/Reliable/Header/Tests.antt =====
-- Runs of the packet header routines of reliable/reliable.c on concrete packets.
use yojimbo_cmake.Common.{ℕ, ◌≡◌, refl, List, [], ◌∷◌, ◌++◌, length, arith}
use yojimbo_cmake.Common.Results.{ok, Safe}
use yojimbo_cmake.Reliable.Header.{PacketHeader, write_packet_header, read_packet_header}
use yojimbo_cmake.Reliable.Header.RoundTrip.{IsValid, read_packet_header_lem}
use yojimbo_cmake.Reliable.Header.Safety.{Within, sequence_of, read_packet_header-Safe}
use yojimbo_cmake.Reliable.Bytes.{write_uint8, write_uint16}
use yojimbo_cmake.Reliable.Header.{prefix_of, sequence_difference, write_ack, write_ack_byte}

-- Packet 700 acks 299 and some before it.
abbrev header : PacketHeader
header = record { sequence = 700; ack = 299; ack_bits = 0xFFFF12FF }

header-IsValid : IsValid header
header-IsValid = record {
  sequence_in = omega arith;
  ack_in = omega arith;
  ack_bits_in = omega arith;
}

header_bytes : write_packet_header header ≡ 4 ∷ 188 ∷ 2 ∷ 43 ∷ 1 ∷ 18 ∷ []
unfolding write_packet_header write_uint8 prefix_of write_uint16 sequence_difference write_ack
    write_ack_byte
header_bytes = refl

read_packet_header_lem_example :
    read_packet_header (write_packet_header header ++ (1 ∷ 2 ∷ [])) 8
    ≡ ok (header, length (write_packet_header header))
read_packet_header_lem_example =
    read_packet_header_lem header (1 ∷ 2 ∷ []) 8 header-IsValid (rw header_bytes (omega arith))

-- The prefix says that two ack bytes follow, and only one does.
abbrev truncated : List ℕ
truncated = 0x26 ∷ 188 ∷ 2 ∷ 1 ∷ 18 ∷ []

read_packet_header-Safe_example :
    Safe (Within 5 (sequence_of truncated)) (read_packet_header truncated 5)
read_packet_header-Safe_example = read_packet_header-Safe truncated 5 (omega arith)
