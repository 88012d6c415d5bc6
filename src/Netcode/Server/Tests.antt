-- ===== src/Netcode/Server/Tests.antt =====
-- Runs of the server of netcode/netcode.c.
use mathlib.Core.Bool.{true≢false}
use yojimbo_cmake.Common.{
  ℕ, zero, suc, ◌^◌, ◌≤◌, ◌≡◌, refl, sym, ap, ◌∙◌, true, false, none, some, inr, List, [], ◌∷◌,
  modify, replicate, arith,
}
use yojimbo_cmake.Common.Int.{pos}
use yojimbo_cmake.Common.Search.{first}
use yojimbo_cmake.Common.Results.{ok, ◌>>=◌, Yields}
use yojimbo_cmake.Netcode.Address.{Address, ipv4}
use yojimbo_cmake.Netcode.ConnectTokenEntries
use yojimbo_cmake.Netcode.EncryptionManager
use yojimbo_cmake.Netcode.Crypto.Plain.{plain, plain-IsAead}
use yojimbo_cmake.Netcode.Token.Challenge
use yojimbo_cmake.Netcode.Token.Challenge.{ChallengeToken}
use yojimbo_cmake.Netcode.Client.Tests.{timer}
use yojimbo_cmake.Netcode.Server.{Slot, Server, empty_slot, slot, create}
use yojimbo_cmake.Netcode.Server.Slots.{
  find_free_client_index, find_client_index_by_address, find_client_index_by_id, stop, start,
}
use yojimbo_cmake.Netcode.Server.Connecting.{connected_slot, process_connection_response_packet}
use yojimbo_cmake.Netcode.Server.Update.{update, check_for_timeouts}
use yojimbo_cmake.Netcode.Server.Sound.{IsSound}
use yojimbo_cmake.Netcode.Server.Sound.Changes.{modify-occupy}
use yojimbo_cmake.Netcode.Server.Sound.Joining.{joined-HasClient}
use yojimbo_cmake.Netcode.Server.Sound.Updating.{update-IsSound}
use yojimbo_cmake.Netcode.Server.Frame.Stopped.{
  empty_at, empty-IsSound, create_start-IsSound, restart-IsSound, restart_loopback,
}
use yojimbo_cmake.Netcode.Server.Frame.Timeouts.{Checked, check_for_timeouts_lem}
use yojimbo_cmake.Netcode.Server.Handshake.{HasJoined, response_lem}

abbrev address : Address
address = ipv4 (127 ∷ 0 ∷ 0 ∷ 1 ∷ []) 50000

-- A server that was started for two clients.
abbrev server : Server timer
server = record {
  has_simulator = true;
  override_send_and_receive = false;
  protocol_id = 77;
  private_key = replicate 32 9;
  address = ipv4 (127 ∷ 0 ∷ 0 ∷ 1 ∷ []) 40000;
  flags = 0;
  time = 100;
  running = true;
  max_clients = 2;
  num_connected_clients = 0;
  global_sequence = 2 ^ 63;
  challenge_sequence = 0;
  challenge_key = replicate 32 5;
  slots = replicate 256 (empty_slot timer);
  connect_token_entries = ConnectTokenEntries.reset timer.clock;
  encryption_manager = EncryptionManager.reset timer.clock;
  memory = [];
  log = [];
}

server_free : (i : ℕ) → (slot timer server i).connected ≡ false
server_free i = ap (λ c. c.connected) (empty_at timer 256 i)

server-IsSound : IsSound timer 2 server
server-IsSound = record {
  slots = record {
    size = refl;
    open_size = omega arith;
    counted = refl;
    each = λ i. rw (empty_at timer 256 i) (empty-IsSound timer);
    apart = λ i j h h' ne u. absurd (true≢false (sym u ∙ server_free i));
  };
  open_slots = refl;
}

-- A client came into slot 0.
abbrev token : ChallengeToken
token = record { client_id = 1000; user_data = replicate 256 4 }

abbrev joined : Server timer
joined = record server {
  num_connected_clients = 1;
  slots =
      modify server.slots 0
        (connected_slot timer plain server address token.client_id 3 (pos 5) token.user_data);
}

joined-IsSound : IsSound timer 2 joined
joined-IsSound =
    (joined-HasClient timer 2 plain server joined 0 address 1000 3 (pos 5) token.user_data
      server-IsSound (omega arith) refl (λ j h u. absurd (true≢false (sym u ∙ server_free j))) refl
      refl refl).sound

-- And one on the same machine came into slot 1 of the server without clients.
abbrev loopback_slot : Slot timer → Slot timer
loopback_slot c = record c {
  connected = true;
  loopback = true;
  encryption_index = none;
  address = Address.type_none;
}

abbrev with_loopback : Server timer
with_loopback = record server {
  num_connected_clients = 1;
  slots = modify server.slots 1 loopback_slot;
}

with_loopback-IsSound : IsSound timer 2 with_loopback
with_loopback-IsSound = record {
  slots =
      modify-occupy timer 2 0 server.slots 1 loopback_slot server-IsSound.slots (omega arith) refl
        (λ c. refl)
        (λ c w. record {
          indexed = λ u. inr (refl, refl);
          replay_size = w.replay_size;
          queue = w.queue;
        })
        (λ j h ne u u'. absurd (true≢false (sym u' ∙ server_free j)));
  open_slots = refl;
}

-- A disconnect packet that no key has encrypted, and a byte.
abbrev arriving : List (Address × List ℕ)
arriving = (address, 22 ∷ 5 ∷ []) ∷ ((address, 0 ∷ []) ∷ [])

update-IsSound_example : Yields (IsSound timer 2) (update timer plain joined 160 1010 arriving)
update-IsSound_example =
    update-IsSound timer 2 plain plain-IsAead plain-IsAead joined 160 1010 arriving joined-IsSound

create_start-IsSound_example : Yields (IsSound timer 64) (
    start timer plain (create timer true false 77 (replicate 32 9) address 100) 64 (replicate 32 5))
create_start-IsSound_example =
    create_start-IsSound timer plain true false 77 (replicate 32 9) address 100 64 (replicate 32 5)
      (omega arith)

check_for_timeouts_lem_example :
    Yields (Checked timer plain joined) (check_for_timeouts timer plain joined)
check_for_timeouts_lem_example =
    check_for_timeouts_lem timer 2 plain plain-IsAead plain-IsAead joined joined-IsSound refl

joined_network :
    (j : ℕ) → (slot timer joined j).connected ≡ true → (slot timer joined j).loopback ≡ false
joined_network zero u = refl
joined_network (suc j) u = absurd (true≢false (sym u ∙ server_free (suc j)))

joined_past : (j : ℕ) → 2 ≤ j → (slot timer joined j).connected ≡ false
joined_past zero h = absurd (omega arith)
joined_past (suc j) h = server_free (suc j)

restart-IsSound_example :
    Yields
      (IsSound timer 64)
      (stop timer plain joined >>= λ s'. start timer plain s' 64 (replicate 32 6))
restart-IsSound_example =
    restart-IsSound timer 2 plain plain-IsAead plain-IsAead joined 64 (replicate 32 6)
      joined-IsSound refl (omega arith) joined_network joined_past

restart_loopback_example :
    Yields
      (λ s'.
        ((slot timer s' 1).connected ≡ true)
        × (s'.num_connected_clients ≡ 0)
        × ¬ IsSound timer 2 s')
      (stop timer plain with_loopback >>= λ s'. start timer plain s' 2 (replicate 32 6))
restart_loopback_example =
    restart_loopback timer 2 plain plain-IsAead plain-IsAead with_loopback 2 (replicate 32 6) 1
      with_loopback-IsSound refl (omega arith) (omega arith) refl refl

no_address : find_client_index_by_address timer server address ≡ none
unfolding find_client_index_by_address first
no_address = refl

no_id : find_client_index_by_id timer server 1000 ≡ none
unfolding find_client_index_by_id first
no_id = refl

response_lem_example :
    (sealed : List ℕ) × (i : ℕ) × ((Challenge.write token >>= λ bytes.
    Challenge.encrypt plain bytes 8 server.challenge_key)
      ≡ ok sealed)
    × (find_free_client_index timer server ≡ some i)
    × Yields
        (HasJoined timer i address 3 token server)
        (process_connection_response_packet timer plain server address 8 sealed (some 3))
response_lem_example =
    response_lem timer 2 plain plain-IsAead plain-IsAead server address token 8 3 server-IsSound
      refl no_address no_id refl
