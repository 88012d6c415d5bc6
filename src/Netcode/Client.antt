-- ===== src/Netcode/Client.antt =====
-- netcode/netcode.c: the client, a state machine that connects to one of the servers of its connect
-- token.
pub mod Connect
pub mod Receive
pub mod Update
pub mod Moves
pub mod Safety
pub mod Handshake
pub mod Tests
use yojimbo_cmake.Common.{ℕ, Bool, List}
use yojimbo_cmake.Netcode.Address.{Address}
use yojimbo_cmake.Netcode.Clock.{Clock}
use yojimbo_cmake.Netcode.Replay.{ReplayProtection}
use yojimbo_cmake.Netcode.PacketQueue.{PacketQueue}
use yojimbo_cmake.Netcode.Token.Connect.{ConnectToken}
use yojimbo_cmake.Netcode.Packet.{Packet}

-- NETCODE_CLIENT_STATE_..., from -6 to 3
pub data ClientState : Type 0 where
  connect_token_expired : ClientState
  invalid_connect_token : ClientState
  connection_timed_out : ClientState
  connection_response_timed_out : ClientState
  connection_request_timed_out : ClientState
  connection_denied : ClientState
  disconnected : ClientState
  sending_connection_request : ClientState
  sending_connection_response : ClientState
  connected : ClientState

-- The number of a state, plus 6.
abbrev pub state_number : ClientState → ℕ
state_number connect_token_expired = 0
state_number invalid_connect_token = 1
state_number connection_timed_out = 2
state_number connection_response_timed_out = 3
state_number connection_request_timed_out = 4
state_number connection_denied = 5
state_number disconnected = 6
state_number sending_connection_request = 7
state_number sending_connection_response = 8
state_number connected = 9

abbrev pub num_disconnect_packets : ℕ
num_disconnect_packets = 10

-- What a packet is sent by.
pub data Route : Type 0 where
  by_simulator : Route
  by_override : Route
  by_ipv4 : Route
  by_ipv6 : Route

-- The calls that leave the client: of the state change callback, of the routine that sends a packet
-- to an address, of the loopback callback, and of the free function.
pub data Event : Type 0 where
  changed : ClientState → ClientState → Event
  sent : Route → Address → List ℕ → Event
  sent_loopback : ℕ → List ℕ → ℕ → Event
  freed : ℕ → Event

-- The arithmetic of `double` on the times of the client: `+ 1.0 / NETCODE_PACKET_SEND_RATE`,
-- `- 1.0f`, and `a - b >= n` for a uint64_t `n`.
pub record Timer : Type 1 where
  pub clock : Clock
  pub add_interval : clock.Time → clock.Time
  pub minus_second : clock.Time → clock.Time
  pub has_elapsed : clock.Time → clock.Time → ℕ → Bool

-- `struct netcode_client_t`, without the sockets and the arrays that packets are received in. The
-- configuration says whether there is a network simulator, and whether sending and receiving are
-- overridden. An `int` is its 32 bits. `memory` holds the packets that were allocated, the first of
-- them at address 1, and `log` the calls made, the last one first.
pub record Client (Time : Type 0) : Type 0 where
  pub has_simulator : Bool
  pub override_send_and_receive : Bool
  pub state : ClientState
  pub time : Time
  pub connect_start_time : Time
  pub last_packet_send_time : Time
  pub last_packet_receive_time : Time
  pub should_disconnect : Bool
  pub should_disconnect_state : ClientState
  pub sequence : ℕ
  pub client_index : ℕ
  pub max_clients : ℕ
  pub server_address_index : ℕ
  pub address : Address
  pub server_address : Address
  pub connect_token : ConnectToken
  pub write_packet_key : List ℕ
  pub read_packet_key : List ℕ
  pub replay_protection : ReplayProtection
  pub packet_receive_queue : PacketQueue
  pub challenge_token_sequence : ℕ
  pub challenge_token_data : List ℕ
  pub loopback : Bool
  pub memory : List Packet
  pub log : List Event
