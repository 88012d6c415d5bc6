-- ===== src/Netcode/Token/Challenge.antt =====
-- netcode/netcode.c: challenge tokens, which a server sends to a client and gets back.
use yojimbo_cmake.Common.{ℕ, ◌-◌, List, [], ◌++◌, ltb}
use yojimbo_cmake.Common.Results.{◌>>=◌, ◌>>◌, Result, ok, refuse_if}
use yojimbo_cmake.Common.Memory.{region}
use yojimbo_cmake.Netcode.Bytes.{write_uint32, write_uint64, write_bytes, read_uint64, read_bytes}
use yojimbo_cmake.Netcode.Crypto.{Sodium, mac_bytes, encrypt_aead, decrypt_aead}
use yojimbo_cmake.Netcode.Token.{user_data_bytes, challenge_token_bytes, padded}

-- `struct netcode_challenge_token_t`
pub record ChallengeToken : Type 0 where
  pub client_id : ℕ
  pub user_data : List ℕ

-- The buffer is zeroed first, which leaves zeros behind the bytes written.
unfoldable pub write : ChallengeToken → Result (List ℕ)
write t = do
  user_data ← write_bytes t.user_data user_data_bytes
  padded challenge_token_bytes (write_uint64 t.client_id ++ user_data)

unfoldable pub read : List ℕ → ℕ → Result ChallengeToken
read buffer buffer_length = do
  refuse_if (ltb buffer_length challenge_token_bytes)
  (client_id, p) ← read_uint64 buffer
  (user_data, p) ← read_bytes user_data_bytes p
  ok (record { client_id = client_id; user_data = user_data })

-- The twelve bytes of the nonce for a sequence number.
abbrev pub nonce_of : ℕ → List ℕ
nonce_of sequence = write_uint32 0 ++ write_uint64 sequence

module _ (S : Sodium) where
  unfoldable pub encrypt : List ℕ → ℕ → List ℕ → Result (List ℕ)
  encrypt buffer sequence key = do
    message ← region buffer (challenge_token_bytes - mac_bytes)
    encrypt_aead S message [] (nonce_of sequence) key

  unfoldable pub decrypt : List ℕ → ℕ → List ℕ → Result (List ℕ)
  decrypt buffer sequence key = do
    message ← region buffer challenge_token_bytes
    decrypt_aead S message [] (nonce_of sequence) key
