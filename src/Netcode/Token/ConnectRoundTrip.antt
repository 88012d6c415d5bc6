-- ===== src/Netcode/Token/ConnectRoundTrip.antt =====
-- Connect tokens that are written and read are the same.
use yojimbo_cmake.Common.{
  ℕ, ◌-◌, ◌≤◌, ◌≡◌, refl, ◌∙◌, ap, true, List, ◌++◌, append_assoc, le→ltb, length, length-append,
  replicate, arith,
}
use yojimbo_cmake.Common.Results.{ok}
use yojimbo_cmake.Reliable.Bytes
use yojimbo_cmake.Reliable.Bytes.{read_uint32_lem, read_uint64_lem}
use yojimbo_cmake.Netcode.Bytes.{write_uint32, write_uint64, write_array, read_array}
use yojimbo_cmake.Netcode.Address.Wire.{
  wires, write_addresses_lem, read_addresses_lem, length-wires,
}
use yojimbo_cmake.Netcode.Token.{
  version_info, connect_token_bytes, connect_token_nonce_bytes, key_bytes,
  connect_token_private_bytes, padded, same_version,
}
use yojimbo_cmake.Netcode.Token.Servers.{
  IsSendableTo, some_servers, few_enough, padded_lem, length-padding,
}
use yojimbo_cmake.Netcode.Token.Connect
use yojimbo_cmake.Netcode.Token.Connect.{ConnectToken}
use yojimbo_cmake.Netcode.Address.{same_parts}

module _ (t : ConnectToken) where
  -- A connect token that can be sent and does not expire before it is made.
  pub record ConnectIsValid : Type 0 where
    pub servers : IsSendableTo t.server_addresses t.client_to_server_key t.server_to_client_key
    pub same : t.version ≡ version_info
    pub nonce_size : length t.nonce ≡ 24
    pub private_size : length t.private_data ≡ connect_token_private_bytes
    pub in_time : t.create_timestamp ≤ t.expire_timestamp

  connect_bytes : List ℕ
  connect_bytes =
      t.version
      ++ (write_uint64 t.protocol_id
          ++ (write_uint64 t.create_timestamp
              ++ (write_uint64 t.expire_timestamp
                  ++ (t.nonce
                      ++ (t.private_data
                          ++ (write_uint32 t.timeout_seconds
                              ++ (write_uint32 (length t.server_addresses)
                                  ++ (wires t.server_addresses
                                      ++ (t.client_to_server_key ++ t.server_to_client_key)))))))))

  length-connect_bytes : ConnectIsValid → length connect_bytes ≤ 1765
  unfolding connect_bytes Bytes.write_uint64 Bytes.write_uint32
  length-connect_bytes v = omega (
    arith,
    length-append t.version _,
    length-append t.nonce _,
    length-append t.private_data _,
    length-append (wires t.server_addresses) _,
    length-append t.client_to_server_key t.server_to_client_key,
    length-wires t.server_addresses v.servers.sendable,
    ap length v.same,
    v.servers.key_size,
    v.servers.key'_size,
    v.servers.few_servers,
    v.nonce_size,
    v.private_size,
  )

  connect_write : ConnectIsValid → Connect.write t ≡ padded connect_token_bytes connect_bytes
  unfolding Connect.write connect_bytes
  connect_write v =
      rw
        (
          write_array 13 t.version (ap length v.same),
          write_array connect_token_nonce_bytes t.nonce v.nonce_size,
          write_array connect_token_private_bytes t.private_data v.private_size,
          write_addresses_lem t.server_addresses v.servers.sendable,
          write_array key_bytes t.client_to_server_key v.servers.key_size,
          write_array key_bytes t.server_to_client_key v.servers.key'_size,
        )
        refl

  right_version : ConnectIsValid → same_version t.version ≡ true
  unfolding same_parts
  right_version v = rw v.same refl

  connect_read :
      (rest : List ℕ)
      → ConnectIsValid
      → Connect.read (connect_bytes ++ rest) connect_token_bytes ≡ ok t
  unfolding Connect.read connect_bytes
  connect_read rest v = simp (
    append_assoc,
    read_uint64_lem,
    read_uint32_lem,
    read_array 13 t.version _ (ap length v.same),
    right_version v,
    le→ltb t.expire_timestamp t.create_timestamp v.in_time,
    read_array connect_token_nonce_bytes t.nonce _ v.nonce_size,
    read_array connect_token_private_bytes t.private_data _ v.private_size,
    some_servers v.servers,
    few_enough v.servers,
    read_addresses_lem t.server_addresses _ v.servers.sendable,
    read_array key_bytes t.client_to_server_key _ v.servers.key_size,
    read_array key_bytes t.server_to_client_key rest v.servers.key'_size,
  )

  -- A connect token that can be sent is written in 2048 bytes, and read back from them.
  pub connect_lem :
      ConnectIsValid
      → (buffer : List ℕ) × (Connect.write t ≡ ok buffer)
        × (length buffer ≡ connect_token_bytes)
        × (Connect.read buffer (length buffer) ≡ ok t)
  connect_lem v = (
    connect_bytes ++ replicate (2048 - length connect_bytes) 0,
    connect_write v ∙ padded_lem 2048 connect_bytes (omega (arith, length-connect_bytes v)),
    size,
    rw size (connect_read _ v),
  )
    where
      size : length (connect_bytes ++ replicate (2048 - length connect_bytes) 0) ≡ 2048
      size = length-padding 2048 connect_bytes (omega (arith, length-connect_bytes v))
