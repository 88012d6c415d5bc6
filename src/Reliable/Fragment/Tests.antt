-- ===== src/Reliable/Fragment/Tests.antt =====
-- Runs of the fragment header routines of reliable/reliable.c on concrete fragments.
use yojimbo_cmake.Common.{ℕ, ◌+◌, ◌≡◌, refl, List, [], ◌∷◌, ◌++◌, length, arith}
use yojimbo_cmake.Common.Int.{pos}
use yojimbo_cmake.Common.Results.{ok, fault}
use yojimbo_cmake.Reliable.Header.{PacketHeader, write_packet_header}
use yojimbo_cmake.Reliable.Header.RoundTrip.{IsValid}
use yojimbo_cmake.Reliable.Fragment.{write_fragment_header, read_fragment_header}
use yojimbo_cmake.Reliable.Fragment.Headers.{
  read_fragment_header_later, read_fragment_header_first, read_fragment_header_past_end,
}

abbrev header : PacketHeader
header = record { sequence = 700; ack = 299; ack_bits = 0xFFFF12FF }

header-IsValid : IsValid header
header-IsValid = record {
  sequence_in = omega arith;
  ack_in = omega arith;
  ack_bits_in = omega arith;
}

abbrev payload : List ℕ
payload = 10 ∷ 20 ∷ 30 ∷ []

read_fragment_header_later_example :
    read_fragment_header (write_fragment_header 700 1 3 ++ payload) 8 16 3
    ≡ ok (
      record {
        fragment_id = 1;
        num_fragments = 3;
        fragment_bytes = pos 3;
        sequence = 700;
        ack = 0;
        ack_bits = 0;
      },
      5,
    )
read_fragment_header_later_example =
    read_fragment_header_later 700 1 3 16 3 payload (omega arith) (omega arith) (omega arith)
      (omega arith) (omega arith) (omega arith) (λ _. refl)

read_fragment_header_first_example :
    read_fragment_header
      (write_fragment_header 700 0 3 ++ (write_packet_header header ++ payload))
      (5 + length (write_packet_header header ++ payload))
      16
      3
    ≡ ok (
      record {
        fragment_id = 0;
        num_fragments = 3;
        fragment_bytes = pos 3;
        sequence = 700;
        ack = 299;
        ack_bits = 0xFFFF12FF;
      },
      5,
    )
read_fragment_header_first_example =
    read_fragment_header_first header 3 16 3 payload header-IsValid (omega arith) (omega arith)
      (omega arith) (omega arith) (λ _. refl)

read_fragment_header_past_end_example :
    read_fragment_header (1 ∷ 9 ∷ 0 ∷ 0 ∷ 1 ∷ 0 ∷ 9 ∷ 0 ∷ []) 8 16 1024 ≡ fault
read_fragment_header_past_end_example =
    read_fragment_header_past_end 9 0 1 0 9 0 16 1024 (omega arith) refl refl
