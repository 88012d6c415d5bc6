-- ===== src/Netcode/Token/Private.antt =====
-- netcode/netcode.c: the private part of a connect token, which a server reads.
use yojimbo_cmake.Common.{
  ℕ, ◌-◌, Option, none, some, List, ◌++◌, ltb, ◌==◌, length, take, replicate,
}
use yojimbo_cmake.Common.Results.{◌>>=◌, ◌>>◌, Result, ok, refuse_if}
use yojimbo_cmake.Common.Memory.{region}
use yojimbo_cmake.Netcode.Bytes.{
  write_uint32, write_uint64, write_bytes, read_uint32, read_uint64, read_bytes,
}
use yojimbo_cmake.Netcode.Address.{Address}
use yojimbo_cmake.Netcode.Address.Wire.{write_addresses, read_addresses}
use yojimbo_cmake.Netcode.Crypto.{Sodium, mac_bytes, encrypt_aead_bignonce, decrypt_aead_bignonce}
use yojimbo_cmake.Netcode.Token.{
  version_info_bytes, max_servers_per_connect, key_bytes, user_data_bytes,
  connect_token_private_bytes, padded,
}

-- `struct netcode_connect_token_private_t`. An `int` is its 32 bits; the first
-- `num_server_addresses` addresses of the array are the list.
pub record PrivateToken : Type 0 where
  pub client_id : ℕ
  pub timeout_seconds : ℕ
  pub server_addresses : List Address
  pub client_to_server_key : List ℕ
  pub server_to_client_key : List ℕ
  pub user_data : List ℕ

-- The two keys are those that `netcode_generate_key` makes.
pub generate : ℕ → ℕ → List Address → Option (List ℕ) → List ℕ → List ℕ → PrivateToken
generate client_id timeout_seconds server_addresses user_data key key' = record {
  client_id = client_id;
  timeout_seconds = timeout_seconds;
  server_addresses = server_addresses;
  client_to_server_key = key;
  server_to_client_key = key';
  user_data = elim user_data [
    | none ↦ replicate user_data_bytes 0
    | some u ↦ take user_data_bytes u
  ];
}

-- The bytes of the buffer.
unfoldable pub write : PrivateToken → Result (List ℕ)
write t = do
  addresses ← write_addresses t.server_addresses
  key ← write_bytes t.client_to_server_key key_bytes
  key' ← write_bytes t.server_to_client_key key_bytes
  user_data ← write_bytes t.user_data user_data_bytes
  padded connect_token_private_bytes (
      write_uint64 t.client_id
      ++ (write_uint32 t.timeout_seconds
          ++ (write_uint32 (length t.server_addresses)
              ++ (addresses ++ (key ++ (key' ++ user_data))))))

-- `num_server_addresses` is refused if it is 0, and, as an `int`, if it is negative or above 32.
unfoldable pub read : List ℕ → ℕ → Result PrivateToken
read buffer buffer_length = do
  refuse_if (ltb buffer_length connect_token_private_bytes)
  (client_id, p) ← read_uint64 buffer
  (timeout_seconds, p) ← read_uint32 p
  (num_server_addresses, p) ← read_uint32 p
  refuse_if (num_server_addresses == 0)
  refuse_if (ltb max_servers_per_connect num_server_addresses)
  (server_addresses, p) ← read_addresses num_server_addresses p
  (key, p) ← read_bytes key_bytes p
  (key', p) ← read_bytes key_bytes p
  (user_data, p) ← read_bytes user_data_bytes p
  ok (record {
    client_id = client_id;
    timeout_seconds = timeout_seconds;
    server_addresses = server_addresses;
    client_to_server_key = key;
    server_to_client_key = key';
    user_data = user_data;
  })

-- The additional data of both functions below.
unfoldable pub additional_data : List ℕ → ℕ → ℕ → Result (List ℕ)
additional_data version protocol_id expire_timestamp = do
  version' ← write_bytes version version_info_bytes
  ok (version' ++ (write_uint64 protocol_id ++ write_uint64 expire_timestamp))

module _ (S : Sodium) where
  -- The message is what stands in front of the room for the mac.
  unfoldable pub encrypt : List ℕ → List ℕ → ℕ → ℕ → List ℕ → List ℕ → Result (List ℕ)
  encrypt buffer version protocol_id expire_timestamp nonce key = do
    additional ← additional_data version protocol_id expire_timestamp
    message ← region buffer (connect_token_private_bytes - mac_bytes)
    encrypt_aead_bignonce S message additional nonce key

  unfoldable pub decrypt : List ℕ → List ℕ → ℕ → ℕ → List ℕ → List ℕ → Result (List ℕ)
  decrypt buffer version protocol_id expire_timestamp nonce key = do
    additional ← additional_data version protocol_id expire_timestamp
    message ← region buffer connect_token_private_bytes
    decrypt_aead_bignonce S message additional nonce key
