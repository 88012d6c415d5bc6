-- ===== src/Netcode/Client/Receive.antt =====
-- netcode/netcode.c: what the client does with packets from the network.
use yojimbo_cmake.Common.{
  ℕ, suc, Bool, true, ◌&&◌, ◌||◌, Option, none, some, List, [], ◌∷◌, ◌++◌, ◌==◌, if◌then◌else◌,
  length,
}
use yojimbo_cmake.Common.Results.{◌>>=◌, Result, ok, invalid, fault}
use yojimbo_cmake.Netcode.Address.{Address, address_equal}
use yojimbo_cmake.Netcode.Replay.{ReplayProtection}
use yojimbo_cmake.Netcode.PacketQueue
use yojimbo_cmake.Netcode.Crypto.{Sodium}
use yojimbo_cmake.Netcode.Packet.{
  Packet, request, denied, challenge, response, keep_alive, payload, disconnect,
}
use yojimbo_cmake.Netcode.Packet.Read.{Context, read_packet}
use yojimbo_cmake.Netcode.Client.{
  ClientState, connection_denied, disconnected, sending_connection_request,
  sending_connection_response, connected, state_number, Timer, Client,
}
use yojimbo_cmake.Netcode.Client.Connect.{Time, set_state, freeing}

abbrev pub is_in : {A : Type 0} → Client A → ClientState → Bool
is_in c state = state_number c.state == state_number state

-- The types of packets that a client takes.
abbrev pub client_allowed_packets : ℕ → Bool
client_allowed_packets type = type == 1 || type == 2 || type == 4 || type == 5 || type == 6

module _ (T : Timer) where
  -- The `switch` on the type, with whether the packet is freed afterwards: one that is put in the
  -- queue is not, unless the queue is full.
  unfoldable pub handle_packet :
      Client (Time T) → Address → Packet → ℕ → ℕ → Client (Time T) × List ℕ
  handle_packet c from (request version protocol_id expire_timestamp nonce token) p sequence =
      (c, p ∷ [])
  handle_packet c from denied p sequence =
      if (is_in c sending_connection_request || is_in c sending_connection_response)
        && address_equal from c.server_address
      then (
        record c {
          should_disconnect = true;
          should_disconnect_state = connection_denied;
          last_packet_receive_time = c.time;
        },
        p ∷ [],
      )
      else (c, p ∷ [])
  handle_packet c from (challenge challenge_sequence token) p sequence =
      if is_in c sending_connection_request && address_equal from c.server_address
      then (
        set_state T
            (record c {
              challenge_token_sequence = challenge_sequence;
              challenge_token_data = token;
              last_packet_receive_time = c.time;
            })
            sending_connection_response,
        p ∷ [],
      )
      else (c, p ∷ [])
  handle_packet c from (response challenge_sequence token) p sequence = (c, p ∷ [])
  handle_packet c from (keep_alive client_index max_clients) p sequence =
      if address_equal from c.server_address
      then if is_in c connected
        then (record c { last_packet_receive_time = c.time }, p ∷ [])
        else if is_in c sending_connection_response
        then (
          set_state T
              (record c {
                last_packet_receive_time = c.time;
                client_index = client_index;
                max_clients = max_clients;
              })
              connected,
          p ∷ [],
        )
        else (c, p ∷ [])
      else (c, p ∷ [])
  handle_packet c from (payload bytes) p sequence =
      if is_in c connected && address_equal from c.server_address
      then (let (taken, q, dropped) = PacketQueue.push c.packet_receive_queue p sequence in
          (record c { packet_receive_queue = q; last_packet_receive_time = c.time }, dropped))
      else (c, p ∷ [])
  handle_packet c from disconnect p sequence =
      if is_in c connected && address_equal from c.server_address
      then (
        record c {
          should_disconnect = true;
          should_disconnect_state = disconnected;
          last_packet_receive_time = c.time;
        },
        p ∷ [],
      )
      else (c, p ∷ [])

  -- netcode_client_process_packet_internal, on a packet that gets memory for itself.
  unfoldable pub process_packet_internal : Client (Time T) → Address → Packet → ℕ → Client (Time T)
  process_packet_internal c from packet sequence =
      let p = suc (length c.memory) in
      let (c', ps) =
        handle_packet (record c { memory = c.memory ++ (packet ∷ []) }) from packet p sequence in
      record c' { log = freeing ps c'.log }

  abbrev pub client_context : Client (Time T) → ℕ → Context
  client_context c current_timestamp = record {
    read_packet_key = some c.read_packet_key;
    protocol_id = c.connect_token.protocol_id;
    current_timestamp = current_timestamp;
    private_key = none;
    allowed_packets = client_allowed_packets;
  }

  -- A packet that was read, or one that was not, with the replay protection after reading it.
  unfoldable pub process_read :
      Client (Time T)
      → Address
      → Result (Packet × ℕ) × Option ReplayProtection
      → Result (Client (Time T))
  process_read c from (r, none) = fault
  process_read c from (fault, some replay) = fault
  process_read c from (invalid, some replay) = ok (record c { replay_protection = replay })
  process_read c from (ok (packet, sequence), some replay) =
      ok (process_packet_internal (record c { replay_protection = replay }) from packet sequence)

  module _ (S : Sodium) (current_timestamp : ℕ) where
    unfoldable pub process_packet : Client (Time T) → Address → List ℕ → Result (Client (Time T))
    process_packet c from bytes = process_read c from (
        read_packet S (client_context c current_timestamp) bytes (length bytes)
          (some c.replay_protection))

    -- Packets from the network simulator, at most NETCODE_CLIENT_MAX_RECEIVE_PACKETS of them.
    unfoldable pub receive_simulated :
        Client (Time T) → List (Address × List ℕ) → Result (Client (Time T))
    receive_simulated c [] = ok c
    receive_simulated c ((from, bytes) ∷ rest) = do
      c ← process_packet c from bytes
      receive_simulated c rest

    -- Packets from a socket or the override, until one of 0 bytes.
    unfoldable pub receive_until_empty :
        Client (Time T) → List (Address × List ℕ) → Result (Client (Time T))
    receive_until_empty c [] = ok c
    receive_until_empty c ((from, []) ∷ rest) = ok c
    receive_until_empty c ((from, b ∷ bytes) ∷ rest) = do
      c ← process_packet c from (b ∷ bytes)
      receive_until_empty c rest

    -- From the packets that are there to be received.
    unfoldable pub receive_packets :
        Client (Time T) → List (Address × List ℕ) → Result (Client (Time T))
    receive_packets c arriving =
        if c.has_simulator then receive_simulated c arriving else receive_until_empty c arriving

  -- netcode_client_process_loopback_packet
  unfoldable pub process_loopback_packet : Client (Time T) → List ℕ → ℕ → Client (Time T)
  process_loopback_packet c bytes sequence =
      let p = suc (length c.memory) in
      let (taken, q, dropped) = PacketQueue.push c.packet_receive_queue p sequence in
      record c {
        memory = c.memory ++ (payload bytes ∷ []);
        packet_receive_queue = q;
        log = freeing dropped c.log;
      }
