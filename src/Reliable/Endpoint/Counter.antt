-- ===== src/Reliable/Endpoint/Counter.antt =====
-- reliable/reliable.h: the indices of an endpoint's counters, RELIABLE_ENDPOINT_COUNTER_...
use yojimbo_cmake.Common.{ℕ}

abbrev pub num_packets_sent : ℕ
num_packets_sent = 0

abbrev pub num_packets_received : ℕ
num_packets_received = 1

abbrev pub num_packets_acked : ℕ
num_packets_acked = 2

abbrev pub num_packets_stale : ℕ
num_packets_stale = 3

abbrev pub num_packets_invalid : ℕ
num_packets_invalid = 4

abbrev pub num_packets_too_large_to_send : ℕ
num_packets_too_large_to_send = 5

abbrev pub num_packets_too_large_to_receive : ℕ
num_packets_too_large_to_receive = 6

abbrev pub num_fragments_sent : ℕ
num_fragments_sent = 7

abbrev pub num_fragments_received : ℕ
num_fragments_received = 8

abbrev pub num_fragments_invalid : ℕ
num_fragments_invalid = 9
