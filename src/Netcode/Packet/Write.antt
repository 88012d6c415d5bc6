-- ===== src/Netcode/Packet/Write.antt =====
-- netcode/netcode.c: `netcode_write_packet`.
use yojimbo_cmake.Common.{ℕ, ◌+◌, ◌*◌, List, [], ◌++◌, length}
use yojimbo_cmake.Common.Results.{◌>>=◌, Result, ok}
use yojimbo_cmake.Netcode.Bytes.{write_uint8, write_uint32, write_uint64, write_bytes}
use yojimbo_cmake.Netcode.Crypto.{Sodium, encrypt_aead}
use yojimbo_cmake.Netcode.Token.{
  version_info, version_info_bytes, connect_token_nonce_bytes, connect_token_private_bytes,
  challenge_token_bytes,
}
use yojimbo_cmake.Netcode.Token.Challenge.{nonce_of}
use yojimbo_cmake.Netcode.Packet.{
  Packet, request, denied, challenge, response, keep_alive, payload, disconnect, packet_type,
}
use yojimbo_cmake.Netcode.Packet.Sequence.{sequence_number_bytes_required, write_sequence}

-- The `switch` on the type, for the packets that are encrypted.
unfoldable pub write_body : Packet → Result (List ℕ)
write_body (request version protocol_id expire_timestamp nonce token) = ok []
write_body denied = ok []
write_body (challenge sequence token) = do
  bytes ← write_bytes token challenge_token_bytes
  ok (write_uint64 sequence ++ bytes)
write_body (response sequence token) = do
  bytes ← write_bytes token challenge_token_bytes
  ok (write_uint64 sequence ++ bytes)
write_body (keep_alive client_index max_clients) =
    ok (write_uint32 client_index ++ write_uint32 max_clients)
write_body (payload bytes) = write_bytes bytes (length bytes)
write_body disconnect = ok []

-- The type is at most 0xF, so `|` is addition.
abbrev pub prefix_byte_of : ℕ → ℕ → ℕ
prefix_byte_of type sequence_bytes = type + sequence_bytes * 16

-- `additional_data` of the writer and the reader
abbrev pub associated_data : ℕ → ℕ → List ℕ
associated_data protocol_id prefix_byte =
    version_info ++ (write_uint64 protocol_id ++ write_uint8 prefix_byte)

module _ (S : Sodium) where
  unfoldable pub write_encrypted : Packet → ℕ → List ℕ → ℕ → Result (List ℕ)
  write_encrypted packet sequence write_packet_key protocol_id = do
    let sequence_bytes = sequence_number_bytes_required sequence
    let prefix_byte = prefix_byte_of (packet_type packet) sequence_bytes
    body ← write_body packet
    sealed ←
        encrypt_aead S body (associated_data protocol_id prefix_byte) (nonce_of sequence)
          write_packet_key
    ok (write_uint8 prefix_byte ++ (write_sequence sequence_bytes sequence ++ sealed))

  -- The bytes of the packet; their number is what the C function returns.
  unfoldable pub write_packet : Packet → ℕ → List ℕ → ℕ → Result (List ℕ)
  write_packet (request version packet_protocol_id expire_timestamp nonce token) sequence key
        protocol_id =
      do
        version' ← write_bytes version version_info_bytes
        nonce' ← write_bytes nonce connect_token_nonce_bytes
        token' ← write_bytes token connect_token_private_bytes
        ok (
            write_uint8 0
            ++ (version'
                ++ (write_uint64 packet_protocol_id
                    ++ (write_uint64 expire_timestamp ++ (nonce' ++ token')))))
  write_packet packet sequence write_packet_key protocol_id =
      write_encrypted packet sequence write_packet_key protocol_id
