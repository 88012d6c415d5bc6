-- ===== src/Netcode/Packet/Read.antt =====
-- netcode/netcode.c: `netcode_read_packet`. NULL is `invalid`.
use yojimbo_cmake.Common.{
  ℕ, ◌+◌, ◌-◌, ◌/◌, ◌%◌, Bool, false, not, ◌&&◌, ◌||◌, Option, none, some, List, [], ◌∷◌, ltb, leb,
  ◌==◌, if◌then◌else◌,
}
use yojimbo_cmake.Common.Results.{◌>>=◌, ◌>>◌, Result, ok, invalid, fault, refuse_if}
use yojimbo_cmake.Common.Memory.{region}
use yojimbo_cmake.Netcode.Bytes.{read_uint32, read_uint64, read_bytes}
use yojimbo_cmake.Netcode.Replay.{ReplayProtection, already_received, advance_sequence}
use yojimbo_cmake.Netcode.Crypto.{Sodium, mac_bytes, decrypt_aead}
use yojimbo_cmake.Netcode.Token.{
  version_info_bytes, same_version, connect_token_nonce_bytes, connect_token_private_bytes,
  challenge_token_bytes,
}
use yojimbo_cmake.Netcode.Token.Private
use yojimbo_cmake.Netcode.Token.Challenge.{nonce_of}
use yojimbo_cmake.Netcode.Packet.{
  Packet, request, denied, challenge, response, keep_alive, payload, disconnect,
  connection_num_packets, max_payload_bytes,
}
use yojimbo_cmake.Netcode.Packet.Sequence.{read_sequence}
use yojimbo_cmake.Netcode.Packet.Write.{associated_data}

-- What a caller gives beside the buffer: a key or its absence, the identifier of the protocol, the
-- time, the private key of a server, and which types are allowed.
pub record Context : Type 0 where
  pub read_packet_key : Option (List ℕ)
  pub protocol_id : ℕ
  pub current_timestamp : ℕ
  pub private_key : Option (List ℕ)
  pub allowed_packets : ℕ → Bool

-- NULL for a pointer that is needed
abbrev pub given {ℓ} : {A : Type ℓ} → Option A → Result A
given none = invalid
given (some a) = ok a

-- The length of a connection request packet.
abbrev pub request_packet_bytes : ℕ
request_packet_bytes = 1 + 13 + 8 + 8 + 24 + 1024

-- The `switch` on the type, on the decrypted bytes and those behind them.
unfoldable pub read_body : ℕ → List ℕ → ℕ → Result Packet
read_body type p decrypted_bytes =
    if type == 1
    then (do refuse_if (not (decrypted_bytes == 0)); ok denied)
    else if type == 2
    then (do
      refuse_if (not (decrypted_bytes == 8 + challenge_token_bytes))
      (sequence, p) ← read_uint64 p
      (token, p) ← read_bytes challenge_token_bytes p
      ok (challenge sequence token))
    else if type == 3
    then (do
      refuse_if (not (decrypted_bytes == 8 + challenge_token_bytes))
      (sequence, p) ← read_uint64 p
      (token, p) ← read_bytes challenge_token_bytes p
      ok (response sequence token))
    else if type == 4
    then (do
      refuse_if (not (decrypted_bytes == 8))
      (client_index, p) ← read_uint32 p
      (max_clients, p) ← read_uint32 p
      ok (keep_alive client_index max_clients))
    else if type == 5
    then (do
      refuse_if (ltb decrypted_bytes 1)
      refuse_if (ltb max_payload_bytes decrypted_bytes)
      (bytes, p) ← read_bytes decrypted_bytes p
      ok (payload bytes))
    else if type == 6
    then (do refuse_if (not (decrypted_bytes == 0)); ok disconnect)
    else invalid

-- Replay protection is only for the types from keep alive on.
abbrev pub is_replay : ℕ → ℕ → Option ReplayProtection → Bool
is_replay type sequence none = false
is_replay type sequence (some r) = leb 4 type && already_received r sequence

abbrev pub noted : ℕ → ℕ → Option ReplayProtection → Option ReplayProtection
noted type sequence none = none
noted type sequence (some r) = some (if leb 4 type then advance_sequence r sequence else r)

module _ (S : Sodium) (context : Context) where
  open context use {read_packet_key, protocol_id, current_timestamp, private_key, allowed_packets}

  -- The buffer from behind its first byte on.
  unfoldable pub read_request : List ℕ → ℕ → Result Packet
  read_request p buffer_length = do
    refuse_if (not (allowed_packets 0))
    refuse_if (not (buffer_length == request_packet_bytes))
    key ← given private_key
    (version, p) ← read_bytes version_info_bytes p
    refuse_if (not (same_version version))
    (packet_protocol_id, p) ← read_uint64 p
    refuse_if (not (packet_protocol_id == protocol_id))
    (expire_timestamp, p) ← read_uint64 p
    refuse_if (leb expire_timestamp current_timestamp)
    (nonce, p) ← read_bytes connect_token_nonce_bytes p
    p ← Private.decrypt S p version protocol_id expire_timestamp nonce key
    (token, p) ← read_bytes connect_token_private_bytes p
    ok (request version packet_protocol_id expire_timestamp nonce token)

  -- Up to the decryption: the sequence number, the buffer as decrypted, and its length.
  unfoldable pub open_encrypted : List ℕ → ℕ → ℕ → Option ReplayProtection → Result (ℕ × List ℕ × ℕ)
  open_encrypted p buffer_length prefix_byte replay = do
    key ← given read_packet_key
    refuse_if (ltb buffer_length (1 + 1 + mac_bytes))
    let type = prefix_byte % 16
    refuse_if (leb connection_num_packets type)
    refuse_if (not (allowed_packets type))
    let sequence_bytes = prefix_byte / 16
    refuse_if (ltb sequence_bytes 1 || ltb 8 sequence_bytes)
    refuse_if (ltb buffer_length (1 + sequence_bytes + mac_bytes))
    (sequence, p) ← read_sequence sequence_bytes p
    refuse_if (is_replay type sequence replay)
    let encrypted_bytes = buffer_length - (1 + sequence_bytes)
    refuse_if (ltb encrypted_bytes mac_bytes)
    message ← region p encrypted_bytes
    opened ←
        decrypt_aead S message (associated_data protocol_id prefix_byte) (nonce_of sequence) key
    ok (sequence, opened, encrypted_bytes - mac_bytes)

  -- Once the packet is decrypted its sequence number is noted, whatever the packet holds.
  unfoldable pub receive_opened :
      ℕ
      → Option ReplayProtection
      → Result (ℕ × List ℕ × ℕ)
      → Result (Packet × ℕ) × Option ReplayProtection
  receive_opened type replay fault = (fault, replay)
  receive_opened type replay invalid = (invalid, replay)
  receive_opened type replay (ok (sequence, p, decrypted_bytes)) = (
    do packet ← read_body type p decrypted_bytes; ok (packet, sequence),
    noted type sequence replay,
  )

  unfoldable pub read_by_prefix :
      ℕ → List ℕ → ℕ → Option ReplayProtection → Result (Packet × ℕ) × Option ReplayProtection
  read_by_prefix prefix_byte p buffer_length replay =
      if prefix_byte == 0
      then (do packet ← read_request p buffer_length; ok (packet, 0), replay)
      else receive_opened (prefix_byte % 16) replay
          (open_encrypted p buffer_length prefix_byte replay)

  -- The packet with its sequence number, and the replay protection afterwards. A length of 0 is
  -- refused before the first byte is read.
  unfoldable pub read_packet :
      List ℕ → ℕ → Option ReplayProtection → Result (Packet × ℕ) × Option ReplayProtection
  read_packet [] buffer_length replay = (if ltb buffer_length 1 then invalid else fault, replay)
  read_packet (prefix_byte ∷ p) buffer_length replay =
      if ltb buffer_length 1
      then (invalid, replay)
      else read_by_prefix prefix_byte p buffer_length replay
