-- ===== src/Netcode/Token/ChallengeRoundTrip.antt =====
-- Challenge tokens that are written, encrypted, decrypted and read are the same.
use yojimbo_cmake.Common.{
  ℕ, ◌+◌, ◌-◌, ◌≡◌, List, [], ◌++◌, append_assoc, length, drop, replicate, arith,
}
use yojimbo_cmake.Common.Results.{ok}
use yojimbo_cmake.Reliable.Bytes
use yojimbo_cmake.Reliable.Bytes.{read_uint64_lem}
use yojimbo_cmake.Netcode.Bytes.{write_uint64, write_array, read_array}
use yojimbo_cmake.Netcode.Crypto.{Sodium, IsAead, sealed_lem}
use yojimbo_cmake.Netcode.Token.{user_data_bytes}
use yojimbo_cmake.Netcode.Token.Servers.{padded_lem, length-padding, region-padding, region-all}
use yojimbo_cmake.Netcode.Token.Challenge
use yojimbo_cmake.Netcode.Token.Challenge.{ChallengeToken, nonce_of}

module _ (t : ChallengeToken) (user_size : length t.user_data ≡ user_data_bytes) where
  challenge_bytes : List ℕ
  challenge_bytes = write_uint64 t.client_id ++ t.user_data

  length-challenge_bytes : length challenge_bytes ≡ 264
  unfolding challenge_bytes Bytes.write_uint64
  length-challenge_bytes = omega (arith, user_size)

  challenge_read : (rest : List ℕ) → Challenge.read (challenge_bytes ++ rest) 300 ≡ ok t
  unfolding Challenge.read challenge_bytes
  challenge_read rest =
      simp (append_assoc, read_uint64_lem, read_array user_data_bytes t.user_data rest user_size)

  -- A challenge token is written in 300 bytes and encrypted in its place; with the same sequence
  -- number and key it is decrypted and read back.
  pub challenge_lem :
      (S : Sodium) (sequence : ℕ) (key : List ℕ)
      → IsAead S.encrypt S.decrypt
      → (buffer : List ℕ) × (sealed : List ℕ) × (opened : List ℕ) × (Challenge.write t ≡ ok buffer)
        × (Challenge.encrypt S buffer sequence key ≡ ok sealed)
        × (length sealed ≡ 300)
        × (Challenge.decrypt S sealed sequence key ≡ ok opened)
        × (Challenge.read opened 300 ≡ ok t)
  unfolding Challenge.encrypt Challenge.decrypt Challenge.write challenge_bytes
  challenge_lem S sequence key sound =
      let message : List ℕ = challenge_bytes ++ replicate (284 - length challenge_bytes) 0 in
      let (c, s) = sealed_lem S message [] (nonce_of sequence) key sound in
      (
        challenge_bytes ++ replicate (300 - length challenge_bytes) 0,
        c,
        message ++ drop (length message) c,
        rw (write_array user_data_bytes t.user_data user_size)
            (padded_lem 300 challenge_bytes (omega (arith, length-challenge_bytes))),
        rw
            (region-padding 284 (300 - length challenge_bytes) challenge_bytes
              (omega (arith, length-challenge_bytes)) (omega (arith, length-challenge_bytes)))
            s.encrypts,
        sealed_size c s.longer,
        rw (region-all 300 c (sealed_size c s.longer)) s.decrypts,
        rw
            (append_assoc challenge_bytes (replicate (284 - length challenge_bytes) 0)
              (drop (length message) c))
            (challenge_read _),
      )
    where
      sealed_size :
          (c : List ℕ)
          → length c ≡ length (challenge_bytes ++ replicate (284 - length challenge_bytes) 0) + 16
          → length c ≡ 300
      sealed_size c h =
          omega
            (arith, length-padding 284 challenge_bytes (omega (arith, length-challenge_bytes)), h)
