-- ===== src/Netcode/Packet.antt =====
-- netcode/netcode.c: `netcode_write_packet` and `netcode_read_packet`.
pub mod Sequence
pub mod Write
pub mod Read
pub mod RoundTrip
pub mod Safety
pub mod Replayed
pub mod Request
pub mod Total
mod Tests
use yojimbo_cmake.Common.{ℕ, List}

-- The packets, by the numbers NETCODE_CONNECTION_..._PACKET. An `int` is its 32 bits.
pub data Packet : Type 0 where
  -- version info, protocol id, expire timestamp, nonce and data of the connect token
  request : List ℕ → ℕ → ℕ → List ℕ → List ℕ → Packet
  denied : Packet
  -- sequence and data of the challenge token
  challenge : ℕ → List ℕ → Packet
  response : ℕ → List ℕ → Packet
  -- client index and maximum of clients
  keep_alive : ℕ → ℕ → Packet
  payload : List ℕ → Packet
  disconnect : Packet

abbrev pub packet_type : Packet → ℕ
packet_type (request version protocol_id expire_timestamp nonce token) = 0
packet_type denied = 1
packet_type (challenge sequence token) = 2
packet_type (response sequence token) = 3
packet_type (keep_alive client_index max_clients) = 4
packet_type (payload bytes) = 5
packet_type disconnect = 6

abbrev pub connection_num_packets : ℕ
connection_num_packets = 7

abbrev pub max_payload_bytes : ℕ
max_payload_bytes = 1200

abbrev pub max_packet_bytes : ℕ
max_packet_bytes = 1300
