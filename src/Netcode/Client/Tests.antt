-- ===== src/Netcode/Client/Tests.antt =====
-- Runs of the client of netcode/netcode.c.
use yojimbo_cmake.Common.{
  ℕ, ◌+◌, ◌-◌, ◌*◌, ◌≡◌, inr, refl, true, false, List, [], ◌∷◌, ltb, leb, replicate, arith,
}
use yojimbo_cmake.Common.Int.{ℤ, pos, negsuc}
use yojimbo_cmake.Common.Results.{◌>>=◌, ok, Yields}
use yojimbo_cmake.Netcode.Address
use yojimbo_cmake.Netcode.Address.{Address, ipv4}
use yojimbo_cmake.Netcode.Replay
use yojimbo_cmake.Netcode.Replay.{already_received}
use yojimbo_cmake.Netcode.Replay.Accepted.{reset-IsValid}
use yojimbo_cmake.Netcode.PacketQueue
use yojimbo_cmake.Netcode.PacketQueue.Fifo.{init-IsValid}
use yojimbo_cmake.Netcode.Crypto.Plain.{plain, plain-IsAead}
use yojimbo_cmake.Netcode.Token.{version_info}
use yojimbo_cmake.Netcode.Token.Connect.{ConnectToken}
use yojimbo_cmake.Netcode.Packet.{challenge, keep_alive}
use yojimbo_cmake.Netcode.Packet.Write.{write_packet}
use yojimbo_cmake.Netcode.Client.{
  disconnected, sending_connection_request, connected, Timer, Client,
}
use yojimbo_cmake.Netcode.Client.Receive.{process_packet}
use yojimbo_cmake.Netcode.Client.Update.{update}
use yojimbo_cmake.Netcode.Client.Moves.{start, Follows}
use yojimbo_cmake.Netcode.Client.Safety.{IsSound}
use yojimbo_cmake.Netcode.Client.Safety.Updating.{update-Yields, update_moves}
use yojimbo_cmake.Netcode.Client.Connect
use yojimbo_cmake.Netcode.Client.Handshake.{handshake_lem}

-- Times in tenths of a second.
abbrev add : ℕ → ℤ → ℕ
add t (pos n) = t + n * 10
add t (negsuc n) = t - (n + 1) * 10

abbrev pub timer : Timer
timer = record {
  clock = record {
    Time = ℕ;
    origin = 0;
    never = 0;
    long_ago = 0;
    add_int = add;
    before = ltb;
    before_or_at = leb;
  };
  add_interval = λ t. t + 1;
  minus_second = λ t. t - 10;
  has_elapsed = λ t s n. leb (n * 10) (t - s);
}

abbrev server : Address
server = ipv4 (127 ∷ 0 ∷ 0 ∷ 1 ∷ []) 40000

abbrev token : ConnectToken
token = record {
  version = version_info;
  protocol_id = 77;
  create_timestamp = 1000;
  expire_timestamp = 1030;
  nonce = replicate 24 3;
  private_data = replicate 1024 1;
  timeout_seconds = 5;
  server_addresses = server ∷ [];
  client_to_server_key = replicate 32 7;
  server_to_client_key = replicate 32 8;
}

-- A client that has begun to connect.
abbrev client : Client ℕ
client = record {
  has_simulator = true;
  override_send_and_receive = false;
  state = sending_connection_request;
  time = 100;
  connect_start_time = 100;
  last_packet_send_time = 90;
  last_packet_receive_time = 100;
  should_disconnect = false;
  should_disconnect_state = disconnected;
  sequence = 0;
  client_index = 0;
  max_clients = 0;
  server_address_index = 0;
  address = ipv4 (127 ∷ 0 ∷ 0 ∷ 1 ∷ []) 50000;
  server_address = server;
  connect_token = token;
  write_packet_key = replicate 32 7;
  read_packet_key = replicate 32 8;
  replay_protection = Replay.reset;
  packet_receive_queue = PacketQueue.init;
  challenge_token_sequence = 0;
  challenge_token_data = replicate 300 0;
  loopback = false;
  memory = [];
  log = [];
}

client-IsSound : IsSound timer client
client-IsSound = record {
  nonce_size = refl;
  private_size = refl;
  challenge_size = refl;
  replay_size = reset-IsValid.size;
  queue = init-IsValid;
  addresses = omega arith;
}

client-Follows : Follows timer client client
client-Follows = record { path = start; reason = inr refl; leaving = λ e. omega arith }

-- A disconnect packet that no key has encrypted, and nothing.
abbrev arriving : List (Address × List ℕ)
arriving = (server, 22 ∷ 5 ∷ []) ∷ ((server, []) ∷ [])

update-Yields_example : Yields (IsSound timer) (update timer plain client 160 1010 arriving)
update-Yields_example =
    update-Yields timer plain plain-IsAead plain-IsAead client 160 1010 arriving client-IsSound

update_moves_example : Yields (Follows timer client) (update timer plain client 160 1010 arriving)
update_moves_example =
    update_moves timer plain plain-IsAead plain-IsAead client 160 1010 arriving client-IsSound
      client-Follows

new_number : already_received Replay.reset 1 ≡ false
unfolding already_received Replay.reset
new_number = refl

from_server : Address.address_equal server server ≡ true
from_server = Address.address_equal_refl server refl

abbrev challenge_data : List ℕ
challenge_data = replicate 300 4

handshake_lem_example :
    (bytes : List ℕ) × (bytes' : List ℕ) × (c' : Client ℕ) × (write_packet plain
        (challenge 9 challenge_data)
        0
        (replicate 32 8)
        77
      ≡ ok bytes)
    × (write_packet plain (keep_alive 3 8) 1 (replicate 32 8) 77 ≡ ok bytes')
    × ((do
      c ← process_packet timer plain 1010 client server bytes
      process_packet timer plain 1010 c server bytes')
        ≡ ok c')
    × (c'.state ≡ connected)
    × (c'.client_index ≡ 3)
    × (c'.max_clients ≡ 8)
    × (c'.challenge_token_sequence ≡ 9)
    × (c'.challenge_token_data ≡ challenge_data)
handshake_lem_example =
    handshake_lem timer server plain 1010 client 9 challenge_data 3 8 0 1 plain-IsAead refl
      from_server refl (omega arith) (omega arith) new_number

-- The only server of the token was tried; of two, the second one is next.
no_server_left : Connect.connect_to_next_server timer client ≡ ok (false, client)
unfolding Connect.connect_to_next_server
no_server_left = refl

two_servers :
    (do
      (found, c) ← Connect.connect_to_next_server timer (record client {
        connect_token = record token { server_addresses = server ∷ (server ∷ []) };
      })
      ok c.server_address_index)
    ≡ ok 1
unfolding Connect.connect_to_next_server Connect.set_state Connect.reset_before_next_connect
two_servers = refl
