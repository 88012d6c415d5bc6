-- ===== src/Netcode/Server.antt =====
-- netcode/netcode.c: the server, with a slot for each client.
pub mod Slots
pub mod Connecting
pub mod Receive
pub mod Update
pub mod Sound
pub mod Frame
pub mod Handshake
mod Tests
use yojimbo_cmake.Common.{ℕ, ◌^◌, Bool, false, Option, none, List, [], get_or, replicate}
use yojimbo_cmake.Common.Int.{ℤ, pos}
use yojimbo_cmake.Netcode.Address.{Address, type_none}
use yojimbo_cmake.Netcode.Replay
use yojimbo_cmake.Netcode.Replay.{ReplayProtection}
use yojimbo_cmake.Netcode.PacketQueue
use yojimbo_cmake.Netcode.PacketQueue.{PacketQueue}
use yojimbo_cmake.Netcode.EncryptionManager
use yojimbo_cmake.Netcode.EncryptionManager.{EncryptionManager}
use yojimbo_cmake.Netcode.ConnectTokenEntries
use yojimbo_cmake.Netcode.ConnectTokenEntries.{ConnectTokenEntry}
use yojimbo_cmake.Netcode.Token.{key_bytes, user_data_bytes}
use yojimbo_cmake.Netcode.Packet.{Packet}
use yojimbo_cmake.Netcode.Client.{Route, Timer}

-- NETCODE_MAX_CLIENTS
abbrev pub max_slots : ℕ
max_slots = 256

-- The calls that leave the server: of the connect and disconnect callback, of the routine that sends
-- a packet to an address, of the loopback callback, and of the free function.
pub data Event : Type 0 where
  connection : ℕ → Bool → Event
  sent : Route → Address → List ℕ → Event
  sent_loopback : ℕ → List ℕ → ℕ → Event
  freed : ℕ → Event

-- One place of the arrays of `struct netcode_server_t` whose names begin with `client_`. An index is
-- `none` for -1.
pub record Slot (T : Timer) : Type 0 where
  pub connected : Bool
  pub timeout : ℤ
  pub loopback : Bool
  pub confirmed : Bool
  pub encryption_index : Option ℕ
  pub client_id : ℕ
  pub sequence : ℕ
  pub last_packet_send_time : T.clock.Time
  pub last_packet_receive_time : T.clock.Time
  pub user_data : List ℕ
  pub replay_protection : ReplayProtection
  pub packet_queue : PacketQueue
  pub address : Address

-- `struct netcode_server_t`, without the sockets and the arrays that packets are received in, and
-- with what is used of its configuration. An `int` other than a timeout is its 32 bits. `memory`
-- holds the packets that were allocated, the first of them at address 1, and `log` the calls made,
-- the last one first.
pub record Server (T : Timer) : Type 0 where
  pub has_simulator : Bool
  pub override_send_and_receive : Bool
  pub protocol_id : ℕ
  pub private_key : List ℕ
  pub address : Address
  pub flags : ℕ
  pub time : T.clock.Time
  pub running : Bool
  pub max_clients : ℕ
  pub num_connected_clients : ℕ
  pub global_sequence : ℕ
  pub challenge_sequence : ℕ
  pub challenge_key : List ℕ
  pub slots : List (Slot T)
  pub connect_token_entries : List (ConnectTokenEntry T.clock)
  pub encryption_manager : EncryptionManager T.clock
  pub memory : List Packet
  pub log : List Event

module _ (T : Timer) where
  -- A slot as `netcode_server_create_overload` leaves it. The timeout is set when a client connects.
  abbrev pub empty_slot : Slot T
  empty_slot = record {
    connected = false;
    timeout = pos 0;
    loopback = false;
    confirmed = false;
    encryption_index = none;
    client_id = 0;
    sequence = 0;
    last_packet_send_time = T.clock.origin;
    last_packet_receive_time = T.clock.origin;
    user_data = replicate user_data_bytes 0;
    replay_protection = Replay.reset;
    packet_queue = PacketQueue.init;
    address = type_none;
  }

  -- A new server, once it has its sockets. The challenge key and sequence number are set when the
  -- server starts.
  unfoldable pub create : Bool → Bool → ℕ → List ℕ → Address → T.clock.Time → Server T
  create has_simulator overrides protocol_id private_key address time = record {
    has_simulator = has_simulator;
    override_send_and_receive = overrides;
    protocol_id = protocol_id;
    private_key = private_key;
    address = address;
    flags = 0;
    time = time;
    running = false;
    max_clients = 0;
    num_connected_clients = 0;
    global_sequence = 2 ^ 63;
    challenge_sequence = 0;
    challenge_key = replicate key_bytes 0;
    slots = replicate max_slots empty_slot;
    connect_token_entries = ConnectTokenEntries.reset T.clock;
    encryption_manager = EncryptionManager.reset T.clock;
    memory = [];
    log = [];
  }

  abbrev pub slot : Server T → ℕ → Slot T
  slot s i = get_or s.slots i empty_slot
