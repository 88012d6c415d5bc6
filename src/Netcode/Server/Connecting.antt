-- ===== src/Netcode/Server/Connecting.antt =====
-- netcode/netcode.c: connection requests and responses, which let a client in.
use yojimbo_cmake.Common.{
  ℕ, ◌+◌, ◌-◌, ◌%◌, ◌^◌, Bool, true, false, not, ◌||◌, Option, none, some, List, [], ◌∷◌, ltb, ◌==◌,
  if◌then◌else◌, drop, modify,
}
use yojimbo_cmake.Common.Int.{ℤ, pos, negsuc}
use yojimbo_cmake.Common.Results.{Result, ok, invalid, fault, ◌>>=◌}
use yojimbo_cmake.Common.Memory.{region}
use yojimbo_cmake.Netcode.Address.{Address, address_equal}
use yojimbo_cmake.Netcode.EncryptionManager
use yojimbo_cmake.Netcode.EncryptionManager.{EncryptionManager, Request}
use yojimbo_cmake.Netcode.ConnectTokenEntries
use yojimbo_cmake.Netcode.ConnectTokenEntries.{ConnectTokenEntry}
use yojimbo_cmake.Netcode.Crypto.{Sodium, mac_bytes}
use yojimbo_cmake.Netcode.Token.{challenge_token_bytes, connect_token_private_bytes}
use yojimbo_cmake.Netcode.Token.Private.{PrivateToken}
use yojimbo_cmake.Netcode.Token.Challenge
use yojimbo_cmake.Netcode.Token.Challenge.{ChallengeToken}
use yojimbo_cmake.Netcode.Packet.{denied, challenge, keep_alive}
use yojimbo_cmake.Netcode.Client.{Timer}
use yojimbo_cmake.Netcode.Server.{connection, Slot, Server}
use yojimbo_cmake.Netcode.Server.Slots.{
  find_client_index_by_id, find_client_index_by_address, find_free_client_index, send_global_packet,
  send_client_packet,
}

-- The `int` with these 32 bits.
abbrev pub signed : ℕ → ℤ
signed n = if ltb n (2 ^ 31) then pos n else negsuc (2 ^ 32 - 1 - n)

-- Whether the loop over the addresses of a token finds that of the server.
unfoldable pub found_server_address : Address → List Address → Bool
found_server_address address [] = false
found_server_address address (a ∷ rest) =
    address_equal address a || found_server_address address rest

module _ (T : Timer) where
  -- server->time + timeout_seconds, or -1.0 for a negative one
  abbrev pub expire_time_of : Server T → ℕ → T.clock.Time
  expire_time_of s timeout_seconds =
      if ltb timeout_seconds (2 ^ 31)
      then T.clock.add_int s.time (pos timeout_seconds)
      else T.clock.never

  module _ (S : Sodium) where
    -- The challenge token, once it was encrypted or not.
    unfoldable pub send_challenge :
        Server T → Address → PrivateToken → Result (List ℕ) → Result (Server T)
    send_challenge s from t fault = fault
    send_challenge s from t invalid = ok s
    send_challenge s from t (ok sealed) =
        send_global_packet T S
          (record s { challenge_sequence = (s.challenge_sequence + 1) % 2 ^ 64 })
          (challenge s.challenge_sequence sealed) from t.server_to_client_key

    unfoldable pub challenge_client :
        Server T → Address → PrivateToken → Bool × EncryptionManager T.clock → Result (Server T)
    challenge_client s from t (false, m) = ok (record s { encryption_manager = m })
    challenge_client s from t (true, m) = do
      bytes ← Challenge.write (record { client_id = t.client_id; user_data = t.user_data })
      send_challenge (record s { encryption_manager = m }) from t
          (Challenge.encrypt S bytes s.challenge_sequence s.challenge_key)

    -- Once the connect token was looked up among those seen.
    unfoldable pub accept_token :
        Server T
        → Address
        → PrivateToken
        → Bool × List (ConnectTokenEntry T.clock)
        → Result (Server T)
    accept_token s from t (false, entries) = ok (record s { connect_token_entries = entries })
    accept_token s from t (true, entries) =
        if s.num_connected_clients == s.max_clients
        then send_global_packet T S (record s { connect_token_entries = entries }) denied from
            t.server_to_client_key
        else challenge_client (record s { connect_token_entries = entries }) from t
            (EncryptionManager.add_encryption_mapping T.clock s.encryption_manager
              (record {
                address = from;
                send_key = t.server_to_client_key;
                receive_key = t.client_to_server_key;
                expire_time = expire_time_of s t.timeout_seconds;
                timeout = signed t.timeout_seconds;
              })
              s.time)

    unfoldable pub process_token : Server T → Address → List ℕ → PrivateToken → Result (Server T)
    process_token s from token_data t =
        if not (found_server_address s.address t.server_addresses)
        then ok s
        else elim (find_client_index_by_address T s from) [
          | some i ↦ ok s
          | none ↦ elim (find_client_index_by_id T s t.client_id) [
            | some i ↦ ok s
            | none ↦ do
              mac ← region (drop (connect_token_private_bytes - mac_bytes) token_data) mac_bytes
              found ←
                  ConnectTokenEntries.find_or_add T.clock s.connect_token_entries from mac s.time
              accept_token s from t found
          ]
        ]

    unfoldable pub process_connection_request_packet :
        Server T → Address → List ℕ → Result PrivateToken → Result (Server T)
    process_connection_request_packet s from token_data fault = fault
    process_connection_request_packet s from token_data invalid = ok s
    process_connection_request_packet s from token_data (ok t) = process_token s from token_data t

    -- The slot of a client that connects.
    abbrev pub connected_slot : Server T → Address → ℕ → ℕ → ℤ → List ℕ → Slot T → Slot T
    connected_slot s address client_id encryption_index timeout user_data c = record c {
      connected = true;
      timeout = timeout;
      encryption_index = some encryption_index;
      client_id = client_id;
      sequence = 0;
      address = address;
      last_packet_send_time = s.time;
      last_packet_receive_time = s.time;
      user_data = user_data;
    }

    unfoldable pub connect_client : Server T → ℕ → Address → ℕ → ℕ → ℤ → List ℕ → Result (Server T)
    connect_client s client_index address client_id encryption_index timeout user_data = do
      s ←
          send_client_packet T S
            (record s {
              num_connected_clients = (s.num_connected_clients + 1) % 2 ^ 32;
              encryption_manager =
                  EncryptionManager.with_mapping T.clock
                    (EncryptionManager.set_expire_time T.clock s.encryption_manager encryption_index
                      T.clock.never)
                    encryption_index (λ e. record e { client_index = some client_index });
              slots =
                  modify s.slots client_index
                    (connected_slot s address client_id encryption_index timeout user_data);
            })
            (keep_alive client_index s.max_clients) client_index
      ok (record s { log = connection client_index true ∷ s.log })

    -- With no free slot, slot -1 would be written to.
    unfoldable pub connect_free :
        Server T → Option ℕ → Address → ChallengeToken → ℕ → Result (Server T)
    connect_free s none from t e = fault
    connect_free s (some i) from t e =
        connect_client s i from t.client_id e
          (EncryptionManager.get_timeout T.clock s.encryption_manager (some e)) t.user_data

    unfoldable pub process_challenge :
        Server T → Address → ChallengeToken → Option ℕ → Result (Server T)
    process_challenge s from t none = ok s
    process_challenge s from t (some e) = elim (find_client_index_by_address T s from) [
      | some i ↦ ok s
      | none ↦ elim (find_client_index_by_id T s t.client_id) [
        | some i ↦ ok s
        | none ↦
            if s.num_connected_clients == s.max_clients
            then send_global_packet T S s denied from
                (EncryptionManager.mapping T.clock s.encryption_manager e).send_key
            else connect_free s (find_free_client_index T s) from t e
      ]
    ]

    -- The challenge token as decrypted and read, or not. With no encryption index there is no key.
    unfoldable pub process_response :
        Server T → Address → Result ChallengeToken → Option ℕ → Result (Server T)
    process_response s from fault encryption_index = fault
    process_response s from invalid encryption_index = ok s
    process_response s from (ok t) encryption_index = process_challenge s from t encryption_index

    unfoldable pub read_challenge : Server T → ℕ → List ℕ → Result ChallengeToken
    read_challenge s sequence token_data = do
      opened ← Challenge.decrypt S token_data sequence s.challenge_key
      Challenge.read opened challenge_token_bytes

    unfoldable pub process_connection_response_packet :
        Server T → Address → ℕ → List ℕ → Option ℕ → Result (Server T)
    process_connection_response_packet s from sequence token_data encryption_index =
        process_response s from (read_challenge s sequence token_data) encryption_index
