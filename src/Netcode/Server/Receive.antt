-- ===== src/Netcode/Server/Receive.antt =====
-- netcode/netcode.c: what the server does with packets from the network.
use yojimbo_cmake.Common.{
  ℕ, suc, ◌/◌, ◌%◌, Bool, true, false, not, ◌||◌, Option, none, some, List, [], ◌∷◌, ◌++◌, leb,
  ◌==◌, if◌then◌else◌, length,
}
use yojimbo_cmake.Common.Results.{Result, ok, invalid, fault, ◌>>=◌}
use yojimbo_cmake.Netcode.Address.{Address}
use yojimbo_cmake.Netcode.Replay.{ReplayProtection}
use yojimbo_cmake.Netcode.PacketQueue
use yojimbo_cmake.Netcode.EncryptionManager
use yojimbo_cmake.Netcode.EncryptionManager.{EncryptionManager}
use yojimbo_cmake.Netcode.Crypto.{Sodium}
use yojimbo_cmake.Netcode.Token.{connect_token_private_bytes}
use yojimbo_cmake.Netcode.Token.Private
use yojimbo_cmake.Netcode.Packet.{
  Packet, request, denied, challenge, response, keep_alive, payload, disconnect,
}
use yojimbo_cmake.Netcode.Packet.Read.{Context, read_packet}
use yojimbo_cmake.Netcode.Client.{Timer}
use yojimbo_cmake.Netcode.Server.{Slot, Server, slot}
use yojimbo_cmake.Netcode.Server.Slots.{
  with_slot, freeing, find_client_index_by_address, disconnect_client_internal,
}
use yojimbo_cmake.Netcode.Server.Connecting.{
  process_connection_request_packet, process_connection_response_packet,
}

-- The types of packets that a server takes.
abbrev pub server_allowed_packets : ℕ → Bool
server_allowed_packets type = type == 0 || type == 3 || type == 4 || type == 5 || type == 6

module _ (T : Timer) (S : Sodium) where
  abbrev pub heard : Server T → Slot T → Slot T
  heard s c = record c { last_packet_receive_time = s.time; confirmed = true }

  -- The `switch` on the type, with the packets freed: one that is put in a queue is not, unless the
  -- queue is full.
  unfoldable pub handle_packet :
      Server T → Address → Packet → ℕ → ℕ → Option ℕ → Option ℕ → Result (Server T × List ℕ)
  handle_packet s from (request version protocol_id expire_timestamp nonce token) p sequence e i =
      do
        s ←
            if s.flags % 2 == 0
            then process_connection_request_packet T S s from token
                (Private.read token connect_token_private_bytes)
            else ok s
        ok (s, p ∷ [])
  handle_packet s from denied p sequence e i = ok (s, p ∷ [])
  handle_packet s from (challenge challenge_sequence token) p sequence e i = ok (s, p ∷ [])
  handle_packet s from (response challenge_sequence token) p sequence e i = do
    s ←
        if s.flags / 2 % 2 == 0
        then process_connection_response_packet T S s from challenge_sequence token e
        else ok s
    ok (s, p ∷ [])
  handle_packet s from (keep_alive client_index max_clients) p sequence e none = ok (s, p ∷ [])
  handle_packet s from (keep_alive client_index max_clients) p sequence e (some i) =
      ok (with_slot T s i (heard s), p ∷ [])
  handle_packet s from (payload bytes) p sequence e none = ok (s, p ∷ [])
  handle_packet s from (payload bytes) p sequence e (some i) =
      let (taken, q, dropped) = PacketQueue.push (slot T s i).packet_queue p sequence in
      ok (with_slot T s i (λ c. record (heard s c) { packet_queue = q }), dropped)
  handle_packet s from disconnect p sequence e none = ok (s, p ∷ [])
  handle_packet s from disconnect p sequence e (some i) = do
    s ← disconnect_client_internal T S s i false
    ok (s, p ∷ [])

  -- netcode_server_process_packet_internal, on a packet that gets memory for itself.
  unfoldable pub process_packet_internal :
      Server T → Address → Packet → ℕ → Option ℕ → Option ℕ → Result (Server T)
  process_packet_internal s from packet sequence e i = do
    (s, ps) ←
        handle_packet (record s { memory = s.memory ++ (packet ∷ []) }) from packet
          (suc (length s.memory)) sequence e i
    ok (record s { log = freeing ps s.log })

  abbrev pub server_context : Server T → Option (List ℕ) → ℕ → Context
  server_context s read_packet_key current_timestamp = record {
    read_packet_key = read_packet_key;
    protocol_id = s.protocol_id;
    current_timestamp = current_timestamp;
    private_key = some s.private_key;
    allowed_packets = server_allowed_packets;
  }

  -- The replay protection of the client, if the packet came from one.
  abbrev pub replay_of : Server T → Option ℕ → Option ReplayProtection
  replay_of s none = none
  replay_of s (some i) = some (slot T s i).replay_protection

  abbrev pub with_replay : Server T → Option ℕ → Option ReplayProtection → Server T
  with_replay s (some i) (some r) = with_slot T s i (λ c. record c { replay_protection = r })
  with_replay s (some i) none = s
  with_replay s none r = s

  -- A packet that was read, or one that was not, with the replay protection after reading it.
  unfoldable pub process_read :
      Server T
      → Address
      → Option ℕ
      → Option ℕ
      → Result (Packet × ℕ) × Option ReplayProtection
      → Result (Server T)
  process_read s from e i (fault, replay) = fault
  process_read s from e i (invalid, replay) = ok (with_replay s i replay)
  process_read s from e i (ok (packet, sequence), replay) =
      process_packet_internal (with_replay s i replay) from packet sequence e i

  -- With no key, only a connection request is read. The first byte is read whatever the length is.
  unfoldable pub process_with :
      ℕ → Server T → Address → List ℕ → Option ℕ → Option ℕ → Result (Server T)
  process_with now s from [] e i = fault
  process_with now s from (b ∷ bytes) e i =
      let key = EncryptionManager.get_receive_key T.clock s.encryption_manager e in
      let read = process_read s from e i (
        read_packet S (server_context s key now) (b ∷ bytes) (length (b ∷ bytes))
          (replay_of s i)) in
      elim key [ none ↦ if not (b == 0) then ok s else read | some k ↦ read ]

  -- The encryption index: that of the client, or that of a mapping of the address.
  abbrev pub process_looked_up :
      ℕ → Server T → Address → List ℕ → Option ℕ × EncryptionManager T.clock → Result (Server T)
  process_looked_up now s from bytes (e, m) =
      process_with now (record s { encryption_manager = m }) from bytes e none

  unfoldable pub process_packet : ℕ → Server T → Address → List ℕ → Result (Server T)
  process_packet now s from bytes = elim (find_client_index_by_address T s from) [
    | some i ↦ process_with now s from bytes (slot T s i).encryption_index (some i)
    | none ↦
        process_looked_up now s from bytes
          (EncryptionManager.find_encryption_mapping T.clock s.encryption_manager from s.time)
  ]

  unfoldable pub read_and_process_packet : ℕ → Server T → Address → List ℕ → Result (Server T)
  read_and_process_packet now s from bytes =
      if not s.running
      then ok s
      else if leb (length bytes) 1
      then ok s
      else process_packet now s from bytes

  -- Packets from the network simulator, at most NETCODE_SERVER_MAX_RECEIVE_PACKETS of them.
  unfoldable pub receive_simulated : ℕ → Server T → List (Address × List ℕ) → Result (Server T)
  receive_simulated now s [] = ok s
  receive_simulated now s ((from, bytes) ∷ rest) = do
    s ← read_and_process_packet now s from bytes
    receive_simulated now s rest

  -- Packets from a socket or the override, until one of 0 bytes.
  unfoldable pub receive_until_empty : ℕ → Server T → List (Address × List ℕ) → Result (Server T)
  receive_until_empty now s [] = ok s
  receive_until_empty now s ((from, []) ∷ rest) = ok s
  receive_until_empty now s ((from, b ∷ bytes) ∷ rest) = do
    s ← read_and_process_packet now s from (b ∷ bytes)
    receive_until_empty now s rest

  unfoldable pub receive_packets : ℕ → Server T → List (Address × List ℕ) → Result (Server T)
  receive_packets now s arriving =
      if s.has_simulator
      then receive_simulated now s arriving
      else receive_until_empty now s arriving
