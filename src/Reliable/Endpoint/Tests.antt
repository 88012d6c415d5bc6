-- ===== src/Reliable/Endpoint/Tests.antt =====
-- Runs of the endpoints of reliable/reliable.c, with whole numbers in place of floating point.
use yojimbo_cmake.Common.{
  ◌<◌, ℕ, ◌+◌, ◌-◌, ◌*◌, ◌/◌, ◌≤◌, ◌≡◌, true, List, [], ◌∷◌, map, length, All, ltb, ◌==◌, replicate,
  arith,
}
use yojimbo_cmake.Common.Results.{ok, Safe, Returns, IsByte}
use yojimbo_cmake.Reliable.Sequence.{add16}
use yojimbo_cmake.Reliable.SequenceBuffer.Members.{Holds}
use yojimbo_cmake.Reliable.Floats.{Floats}
use yojimbo_cmake.Reliable.Endpoint
use yojimbo_cmake.Reliable.Endpoint.{Config, Endpoint, Event, transmit}
use yojimbo_cmake.Reliable.Endpoint.Fragmenting.{carried, fragments_lem}
use yojimbo_cmake.Reliable.Endpoint.Send.{fragments, fragments_needed, packets_of, send_packet}
use yojimbo_cmake.Reliable.Endpoint.Receive.{Environment, receive_regular, receive_packet}
use yojimbo_cmake.Reliable.Endpoint.Depth.{Assembles, receive_packet_depth}
use yojimbo_cmake.Reliable.Endpoint.Assembling.{create-Assembles, receive_packet-Assembles}
use yojimbo_cmake.Reliable.Endpoint.Valid.{IsValid, IsSize, ConfigIsValid, endpoint_create-IsValid}
use yojimbo_cmake.Reliable.Endpoint.Sending.{next_header, send_packet_lem}
use yojimbo_cmake.Reliable.Endpoint.Acking.{LeavesValid, receive_regular-Safe}

abbrev whole : Floats
whole = record {
  Float = ℕ;
  Double = ℕ;
  float = λ n. n;
  double = λ n. n;
  to_float = λ n. n;
  to_double = λ n. n;
  tiny = 0;
  flt_max = 1000000;
  add_float = λ x y. x + y;
  sub_float = λ x y. x - y;
  mul_float = λ x y. x * y;
  div_float = λ x y. x / y;
  sub_double = λ x y. x - y;
  mul_double = λ x y. x * y;
  div_double = λ x y. x / y;
  fabs = λ x. x;
  float_less = ltb;
  float_equal = λ x y. x == y;
  double_less = ltb;
  double_equal = λ x y. x == y;
}

abbrev config : Config whole
config = record {
  max_packet_size = 40;
  fragment_above = 16;
  max_fragments = 8;
  fragment_size = 10;
  ack_buffer_size = 8;
  sent_packets_buffer_size = 4;
  received_packets_buffer_size = 4;
  fragment_reassembly_buffer_size = 2;
  rtt_smoothing_factor = 1;
  packet_loss_smoothing_factor = 1;
  bandwidth_smoothing_factor = 1;
  packet_header_size = 28;
}

abbrev size_4 : IsSize 4
size_4 = record { several = omega arith; small = omega arith; turns = 16384; divides = omega arith }

abbrev size_2 : IsSize 2
size_2 = record { several = omega arith; small = omega arith; turns = 32768; divides = omega arith }

config-IsValid : ConfigIsValid whole config
config-IsValid = record {
  sent = size_4;
  sent_small = omega arith;
  received = size_4;
  reassembly = size_2;
}

abbrev endpoint : Endpoint whole
endpoint = Endpoint.create whole config 100

endpoint-IsValid : IsValid whole endpoint
endpoint-IsValid = endpoint_create-IsValid whole config 100 config-IsValid

endpoint_create-IsValid_example : IsValid whole (Endpoint.create whole config 100)
endpoint_create-IsValid_example = endpoint_create-IsValid whole config 100 config-IsValid

-- More than `fragment_above` bytes, so this goes out in fragments.
abbrev payload : List ℕ
payload = replicate 25 7

payload_fits : length payload ≤ endpoint.config.max_packet_size
unfolding Endpoint.create
payload_fits = omega arith

send_packet_lem_example :
    (e' : Endpoint whole) × (send_packet whole endpoint payload
      ≡ ok (
        e',
        map
            (transmit endpoint.sequence)
            (packets_of whole endpoint.config (next_header whole endpoint) payload),
      ))
    × IsValid whole e'
    × (e'.sequence ≡ add16 endpoint.sequence 1)
    × Holds e'.sent_packets endpoint.sequence
send_packet_lem_example = send_packet_lem whole endpoint payload endpoint-IsValid payload_fits

abbrev accepting : Environment
accepting = record { accepts = λ sequence payload. true; allocate = λ n. replicate n 0 }

-- A regular packet with the sequence number 5 that acks packet 4, and the payload 9.
abbrev packet : List ℕ
packet = 0x20 ∷ 5 ∷ 0 ∷ 1 ∷ 9 ∷ []

packet_bytes : All IsByte packet
packet_bytes = ground arith

receive_regular-Safe_example :
    Safe (LeavesValid whole accepting) (receive_regular whole accepting endpoint packet)
receive_regular-Safe_example =
    receive_regular-Safe whole accepting endpoint packet endpoint-IsValid packet_bytes

-- That packet as the only fragment of its own.
abbrev fragment : List ℕ
fragment = 1 ∷ 5 ∷ 0 ∷ 0 ∷ 0 ∷ packet

endpoint-Assembles : Assembles whole accepting endpoint
endpoint-Assembles = create-Assembles whole accepting config 100 (omega arith)

receive_packet_depth_example :
    receive_packet whole accepting 7 endpoint fragment
    ≡ receive_packet whole accepting 2 endpoint fragment
receive_packet_depth_example =
    receive_packet_depth whole accepting 5 endpoint fragment endpoint-Assembles

receive_packet-Assembles_example :
    Returns
      (λ r. Assembles whole accepting r.0)
      (receive_packet whole accepting 2 endpoint fragment)
receive_packet-Assembles_example =
    receive_packet-Assembles whole accepting 2 endpoint fragment endpoint-Assembles

fragments_lem_example :
    (carried 4 (
        fragments
          (fragments_needed 25 10)
          700
          (fragments_needed 25 10)
          10
          (0x20 ∷ 188 ∷ 2 ∷ 1 ∷ [])
          0
          payload)
      ≡ payload)
    × (fragments_needed 25 10 * 10 < 25 + 10)
fragments_lem_example = fragments_lem 700 10 (0x20 ∷ 188 ∷ 2 ∷ 1 ∷ []) payload (omega arith)
