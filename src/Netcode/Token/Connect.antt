-- ===== src/Netcode/Token/Connect.antt =====
-- netcode/netcode.c: connect tokens, which a client is given.
use yojimbo_cmake.Common.{ℕ, not, ◌||◌, List, ◌++◌, ltb, ◌==◌, length}
use yojimbo_cmake.Common.Results.{◌>>=◌, ◌>>◌, Result, ok, refuse_if}
use yojimbo_cmake.Netcode.Bytes.{
  write_uint32, write_uint64, write_bytes, read_uint32, read_uint64, read_bytes,
}
use yojimbo_cmake.Netcode.Address.{Address}
use yojimbo_cmake.Netcode.Address.Wire.{write_addresses, read_addresses}
use yojimbo_cmake.Netcode.Token.{
  version_info_bytes, same_version, max_servers_per_connect, key_bytes, connect_token_nonce_bytes,
  connect_token_private_bytes, connect_token_bytes, padded,
}

-- `struct netcode_connect_token_t`. An `int` is its 32 bits; the first `num_server_addresses`
-- addresses of the array are the list.
pub record ConnectToken : Type 0 where
  pub version : List ℕ
  pub protocol_id : ℕ
  pub create_timestamp : ℕ
  pub expire_timestamp : ℕ
  pub nonce : List ℕ
  pub private_data : List ℕ
  pub timeout_seconds : ℕ
  pub server_addresses : List Address
  pub client_to_server_key : List ℕ
  pub server_to_client_key : List ℕ

unfoldable pub write : ConnectToken → Result (List ℕ)
write t = do
  version ← write_bytes t.version version_info_bytes
  nonce ← write_bytes t.nonce connect_token_nonce_bytes
  private_data ← write_bytes t.private_data connect_token_private_bytes
  addresses ← write_addresses t.server_addresses
  key ← write_bytes t.client_to_server_key key_bytes
  key' ← write_bytes t.server_to_client_key key_bytes
  padded connect_token_bytes (
      version
      ++ (write_uint64 t.protocol_id
          ++ (write_uint64 t.create_timestamp
              ++ (write_uint64 t.expire_timestamp
                  ++ (nonce
                      ++ (private_data
                          ++ (write_uint32 t.timeout_seconds
                              ++ (write_uint32 (length t.server_addresses)
                                  ++ (addresses ++ (key ++ key'))))))))))

unfoldable pub read : List ℕ → ℕ → Result ConnectToken
read buffer buffer_length = do
  refuse_if (not (buffer_length == connect_token_bytes))
  (version, p) ← read_bytes version_info_bytes buffer
  refuse_if (not (same_version version))
  (protocol_id, p) ← read_uint64 p
  (create_timestamp, p) ← read_uint64 p
  (expire_timestamp, p) ← read_uint64 p
  refuse_if (ltb expire_timestamp create_timestamp)
  (nonce, p) ← read_bytes connect_token_nonce_bytes p
  (private_data, p) ← read_bytes connect_token_private_bytes p
  (timeout_seconds, p) ← read_uint32 p
  (num_server_addresses, p) ← read_uint32 p
  refuse_if (num_server_addresses == 0 || ltb max_servers_per_connect num_server_addresses)
  (server_addresses, p) ← read_addresses num_server_addresses p
  (key, p) ← read_bytes key_bytes p
  (key', p) ← read_bytes key_bytes p
  ok (record {
    version = version;
    protocol_id = protocol_id;
    create_timestamp = create_timestamp;
    expire_timestamp = expire_timestamp;
    nonce = nonce;
    private_data = private_data;
    timeout_seconds = timeout_seconds;
    server_addresses = server_addresses;
    client_to_server_key = key;
    server_to_client_key = key';
  })
