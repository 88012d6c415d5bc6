-- ===== src/Netcode/Token/PrivateRoundTrip.antt =====
-- Private tokens that are written, encrypted, decrypted and read are the same.
use yojimbo_cmake.Common.{
  ℕ, ◌+◌, ◌-◌, ◌≤◌, ◌≡◌, refl, ◌∙◌, List, ◌++◌, append_assoc, length, drop, length-append,
  replicate, arith,
}
use yojimbo_cmake.Common.Results.{ok}
use yojimbo_cmake.Reliable.Bytes
use yojimbo_cmake.Reliable.Bytes.{read_uint32_lem, read_uint64_lem}
use yojimbo_cmake.Netcode.Bytes.{write_uint32, write_uint64, write_array, read_array}
use yojimbo_cmake.Netcode.Address.Wire.{
  wires, write_addresses_lem, read_addresses_lem, length-wires,
}
use yojimbo_cmake.Netcode.Crypto.{Sodium, IsAead, bignonce-IsSealed}
use yojimbo_cmake.Netcode.Token.{
  version_info_bytes, key_bytes, user_data_bytes, connect_token_private_bytes, padded,
}
use yojimbo_cmake.Netcode.Token.Private
use yojimbo_cmake.Netcode.Token.Private.{PrivateToken}
use yojimbo_cmake.Netcode.Token.Servers.{
  IsSendableTo, some_servers, few_enough, padded_lem, length-padding, region-padding, region-all,
}

module _ (t : PrivateToken) where
  pub record PrivateIsValid : Type 0 where
    pub servers : IsSendableTo t.server_addresses t.client_to_server_key t.server_to_client_key
    pub user_size : length t.user_data ≡ user_data_bytes

  private_bytes : List ℕ
  private_bytes =
      write_uint64 t.client_id
      ++ (write_uint32 t.timeout_seconds
          ++ (write_uint32 (length t.server_addresses)
              ++ (wires t.server_addresses
                  ++ (t.client_to_server_key ++ (t.server_to_client_key ++ t.user_data)))))

  length-private_bytes : PrivateIsValid → length private_bytes ≤ 944
  unfolding private_bytes Bytes.write_uint64 Bytes.write_uint32
  length-private_bytes v = omega (
    arith,
    length-append (wires t.server_addresses)
        (t.client_to_server_key ++ (t.server_to_client_key ++ t.user_data)),
    length-append t.client_to_server_key (t.server_to_client_key ++ t.user_data),
    length-append t.server_to_client_key t.user_data,
    length-wires t.server_addresses v.servers.sendable,
    v.servers.key_size,
    v.servers.key'_size,
    v.user_size,
    v.servers.few_servers,
  )

  private_write :
      PrivateIsValid → Private.write t ≡ padded connect_token_private_bytes private_bytes
  unfolding Private.write private_bytes
  private_write v =
      rw
        (
          write_addresses_lem t.server_addresses v.servers.sendable,
          write_array key_bytes t.client_to_server_key v.servers.key_size,
          write_array key_bytes t.server_to_client_key v.servers.key'_size,
          write_array user_data_bytes t.user_data v.user_size,
        )
        refl

  private_read :
      (rest : List ℕ)
      → PrivateIsValid
      → Private.read (private_bytes ++ rest) connect_token_private_bytes ≡ ok t
  unfolding Private.read private_bytes
  private_read rest v = simp (
    append_assoc,
    read_uint64_lem,
    read_uint32_lem,
    some_servers v.servers,
    few_enough v.servers,
    read_addresses_lem t.server_addresses
        (t.client_to_server_key ++ (t.server_to_client_key ++ (t.user_data ++ rest)))
        v.servers.sendable,
    read_array key_bytes t.client_to_server_key (t.server_to_client_key ++ (t.user_data ++ rest))
        v.servers.key_size,
    read_array key_bytes t.server_to_client_key (t.user_data ++ rest) v.servers.key'_size,
    read_array user_data_bytes t.user_data rest v.user_size,
  )

  -- A private token that can be sent is written in 1024 bytes and encrypted in its place; with the
  -- same version, protocol, time, nonce and key it is decrypted and read back.
  pub private_lem :
      (S : Sodium) (version nonce key : List ℕ) (protocol_id expire_timestamp : ℕ)
      → IsAead S.encrypt_bignonce S.decrypt_bignonce
      → PrivateIsValid
      → length version ≡ version_info_bytes
      → (buffer : List ℕ) × (sealed : List ℕ) × (opened : List ℕ) × (Private.write t ≡ ok buffer)
        × (length buffer ≡ connect_token_private_bytes)
        × (Private.encrypt S buffer version protocol_id expire_timestamp nonce key ≡ ok sealed)
        × (length sealed ≡ connect_token_private_bytes)
        × (Private.decrypt S sealed version protocol_id expire_timestamp nonce key ≡ ok opened)
        × (Private.read opened connect_token_private_bytes ≡ ok t)
  unfolding Private.encrypt Private.decrypt Private.additional_data
  private_lem S version nonce key protocol_id expire_timestamp sound v hv =
      let additional : List ℕ =
        version ++ (write_uint64 protocol_id ++ write_uint64 expire_timestamp) in
      let message : List ℕ = private_bytes ++ replicate (1008 - length private_bytes) 0 in
      let (c, s) = bignonce-IsSealed S message additional nonce key sound in
      (
        private_bytes ++ replicate (1024 - length private_bytes) 0,
        c,
        message ++ drop (length message) c,
        private_write v ∙ padded_lem 1024 private_bytes (omega (arith, length-private_bytes v)),
        length-padding 1024 private_bytes (omega (arith, length-private_bytes v)),
        rw
            (
              write_array 13 version hv,
              region-padding 1008 (1024 - length private_bytes) private_bytes
                  (omega (arith, length-private_bytes v)) (omega (arith, length-private_bytes v)),
            )
            s.encrypts,
        sealed_size c s.longer v,
        rw (write_array 13 version hv, region-all 1024 c (sealed_size c s.longer v)) s.decrypts,
        rw
            (append_assoc private_bytes (replicate (1008 - length private_bytes) 0)
              (drop (length message) c))
            (private_read _ v),
      )
    where
      sealed_size :
          (c : List ℕ)
          → length c ≡ length (private_bytes ++ replicate (1008 - length private_bytes) 0) + 16
          → PrivateIsValid
          → length c ≡ 1024
      sealed_size c h v =
          omega
            (arith, length-padding 1008 private_bytes (omega (arith, length-private_bytes v)), h)
