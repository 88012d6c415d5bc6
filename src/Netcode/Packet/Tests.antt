-- ===== src/Netcode/Packet/Tests.antt =====
-- Runs of the packets of netcode/netcode.c.
use yojimbo_cmake.Common.{
  ℕ, ◌-◌, ◌^◌, ◌<◌, ◌≤◌, ◌≡◌, ◌⊎◌, refl, true, none, some, List, [], ◌∷◌, ◌++◌, length, replicate,
  arith,
}
use yojimbo_cmake.Common.Results.{ok, invalid, Safe}
use yojimbo_cmake.Reliable.Bytes
use yojimbo_cmake.Common.Memory
use yojimbo_cmake.Netcode.Replay
use yojimbo_cmake.Netcode.Replay.Accepted.{reset-IsValid}
use yojimbo_cmake.Netcode.Crypto
use yojimbo_cmake.Netcode.Crypto.Plain.{plain, plain-IsAead}
use yojimbo_cmake.Netcode.Token.{version_info, connect_token_private_bytes}
use yojimbo_cmake.Netcode.Token.Private
use yojimbo_cmake.Netcode.Token.Tests.{key, nonce, token, token-IsValid}
use yojimbo_cmake.Netcode.Packet.{payload, keep_alive, request, max_packet_bytes}
use yojimbo_cmake.Netcode.Packet.Sequence
use yojimbo_cmake.Netcode.Packet.Sequence.{
  sequence_number_bytes_required, sequence_number_bytes_required_lem,
}
use yojimbo_cmake.Netcode.Packet.Write.{write_packet}
use yojimbo_cmake.Netcode.Packet.Read
use yojimbo_cmake.Netcode.Packet.Read.{Context, noted, read_packet}
use yojimbo_cmake.Netcode.Packet.RoundTrip.{packet_lem}
use yojimbo_cmake.Netcode.Packet.Safety.{PacketIsSized, read_packet-Safe}
use yojimbo_cmake.Netcode.Packet.Replayed.{read_packet_twice}
use yojimbo_cmake.Netcode.Packet.Request.{request_lem}

abbrev context : Context
context = record {
  read_packet_key = some key;
  protocol_id = 77;
  current_timestamp = 1500;
  private_key = some key;
  allowed_packets = λ type. true;
}

abbrev bytes_sent : List ℕ
bytes_sent = 1 ∷ 2 ∷ 3 ∷ []

packet_lem_example :
    (bytes : List ℕ) × (write_packet plain (payload bytes_sent) 300 key 77 ≡ ok bytes)
    × (length bytes ≤ max_packet_bytes)
    × (read_packet plain context bytes (length bytes) none ≡ (ok (payload bytes_sent, 300), none))
packet_lem_example =
    packet_lem plain context (payload bytes_sent) 300 key none plain-IsAead
      (omega arith, omega arith) (omega arith) refl refl refl

-- A keep alive packet with sequence number 5.
abbrev keep_alive_bytes : List ℕ
keep_alive_bytes = 20 ∷ 5 ∷ (replicate 16 0 ++ (3 ∷ 0 ∷ 0 ∷ 0 ∷ 8 ∷ 0 ∷ 0 ∷ 0 ∷ []))

keep_alive_read :
    read_packet plain context keep_alive_bytes 26 (some Replay.reset)
    ≡ (ok (keep_alive 3 8, 5), noted 4 5 (some Replay.reset))
unfolding Read.read_packet Read.read_by_prefix Read.open_encrypted Read.receive_opened
    Sequence.read_sequence Bytes.read_uint8 Replay.already_received Replay.reset Memory.region
    Crypto.decrypt_aead Read.read_body Bytes.read_uint32
keep_alive_read = refl

read_packet_twice_example :
    read_packet plain context keep_alive_bytes 26 (noted 4 5 (some Replay.reset))
    ≡ (invalid, noted 4 5 (some Replay.reset))
read_packet_twice_example =
    read_packet_twice plain context Replay.reset reset-IsValid.size keep_alive_bytes 26
      (keep_alive 3 8) 5 (noted 4 5 (some Replay.reset)) keep_alive_read (omega arith)

read_packet-Safe_example :
    Safe
      (PacketIsSized plain context)
      (read_packet plain context keep_alive_bytes 26 (some Replay.reset)).0
read_packet-Safe_example =
    read_packet-Safe plain context plain-IsAead plain-IsAead keep_alive_bytes 26 (some Replay.reset)
      (omega arith)

request_lem_example :
    (buffer : List ℕ) × (sealed : List ℕ) × (opened : List ℕ) × (bytes : List ℕ) × (Private.write
        token
      ≡ ok buffer)
    × (Private.encrypt plain buffer version_info 77 2000 nonce key ≡ ok sealed)
    × (write_packet plain (request version_info 77 2000 nonce sealed) 0 key 77 ≡ ok bytes)
    × (length bytes ≡ 1078)
    × (read_packet plain context bytes (length bytes) none
        ≡ (ok (request version_info 77 2000 nonce opened, 0), none))
    × (Private.read opened connect_token_private_bytes ≡ ok token)
request_lem_example =
    request_lem plain context 2000 nonce key token 0 key none plain-IsAead token-IsValid refl refl
      refl (omega arith)

sequence_number_bytes_required_lem_example :
    let n = sequence_number_bytes_required 300 in
    (1 ≤ n) × (n ≤ 8) × (300 < 256 ^ n) × ((n ≡ 1) ⊎ (256 ^ (n - 1) ≤ 300))
sequence_number_bytes_required_lem_example = sequence_number_bytes_required_lem 300 (omega arith)
