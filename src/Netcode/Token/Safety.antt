-- ===== src/Netcode/Token/Safety.antt =====
-- Reading the tokens that a server gets, whatever their bytes are.
use yojimbo_cmake.Common.{
  ℕ, zero, suc, ◌+◌, ◌*◌, ◌≤◌, ◌≡◌, ◌∙◌, List, [], length, ltb, ltb→le, ◌==◌, arith,
}
use yojimbo_cmake.Common.Results.{ok, invalid, ◌>>=◌, Safe, Safe-bind, Safe-refuse, Safe-weaken}
use yojimbo_cmake.Common.Memory.{region, region-Safe}
use yojimbo_cmake.Reliable.Bytes.{Took, read_uint8-Took, read_uint16-Took}
use yojimbo_cmake.Netcode.Address.{Address}
use yojimbo_cmake.Netcode.Address.Wire.{read_words, read_parts, read_address, read_addresses}
use yojimbo_cmake.Netcode.Bytes.{read_uint8, read_uint16, read_uint32, read_uint64, read_bytes}
use yojimbo_cmake.Netcode.Crypto.{Sodium, IsAead, decrypt_aead-Safe}
use yojimbo_cmake.Netcode.Packet.Safety.{
  read_uint32-Took, read_uint64-Took, TookBytes, read_bytes-Took, Safe-if,
}
use yojimbo_cmake.Netcode.Token.{max_servers_per_connect}
use yojimbo_cmake.Netcode.Token.Private
use yojimbo_cmake.Netcode.Token.Private.{PrivateToken}
use yojimbo_cmake.Netcode.Token.Challenge
use yojimbo_cmake.Netcode.Token.Challenge.{ChallengeToken, nonce_of}

-- At most `n` bytes are taken of memory of length `m`.
abbrev TookAtMost : {A : Type 0} → ℕ → ℕ → A × List ℕ → Type 0
TookAtMost n m r = m ≤ length r.1 + n

read_words-Took :
    (n : ℕ) (p : List ℕ) → 2 * n ≤ length p → Safe (TookAtMost (2 * n) (length p)) (read_words n p)
unfolding read_words
read_words-Took zero p h = omega arith
read_words-Took (suc n) p h =
    Safe-bind (Took 2 (length p)) (TookAtMost (2 * suc n) (length p)) (read_uint16 p) _
      (read_uint16-Took p (omega arith))
      λ (x, p') t.
        Safe-bind (TookAtMost (2 * n) (length p')) (TookAtMost (2 * suc n) (length p))
          (read_words n p') _ (read_words-Took n p' (omega (arith, t)))
          λ (xs, p'') t'. omega (arith, t, t')

read_parts-Took :
    (type : ℕ) (p : List ℕ) → 18 ≤ length p → Safe (TookAtMost 18 (length p)) (read_parts type p)
unfolding read_parts
read_parts-Took type p h =
    Safe-if (TookAtMost 18 (length p)) (type == 1) _ _
      (Safe-bind (TookBytes 4 (length p)) (TookAtMost 18 (length p)) (read_bytes 4 p) _
        (read_bytes-Took 4 p (omega arith))
        λ (parts, p') t.
          Safe-bind (Took 2 (length p')) (TookAtMost 18 (length p)) (read_uint16 p') _
            (read_uint16-Took p' (omega (arith, t.1))) λ (port, p'') t'. omega (arith, t.1, t'))
      (Safe-if (TookAtMost 18 (length p)) (type == 2) _ invalid
        (Safe-bind (TookAtMost 16 (length p)) (TookAtMost 18 (length p)) (read_words 8 p) _
          (read_words-Took 8 p (omega arith))
          λ (parts, p') t.
            Safe-bind (Took 2 (length p')) (TookAtMost 18 (length p)) (read_uint16 p') _
              (read_uint16-Took p' (omega (arith, t))) λ (port, p'') t'. omega (arith, t, t'))
        tt)

read_address-Took : (p : List ℕ) → 19 ≤ length p → Safe (TookAtMost 19 (length p)) (read_address p)
unfolding read_address
read_address-Took p h =
    Safe-bind (Took 1 (length p)) (TookAtMost 19 (length p)) (read_uint8 p) _
      (read_uint8-Took p (omega arith))
      λ (type, p') t.
        Safe-weaken (TookAtMost 18 (length p')) (TookAtMost 19 (length p)) (read_parts type p')
          (read_parts-Took type p' (omega (arith, t))) (λ r t'. omega (arith, t, t'))

read_addresses-Took :
    (n : ℕ) (p : List ℕ)
    → 19 * n ≤ length p
    → Safe (TookAtMost (19 * n) (length p)) (read_addresses n p)
unfolding read_addresses
read_addresses-Took zero p h = omega arith
read_addresses-Took (suc n) p h =
    Safe-bind (TookAtMost 19 (length p)) (TookAtMost (19 * suc n) (length p)) (read_address p) _
      (read_address-Took p (omega arith))
      λ (a, p') t.
        Safe-bind (TookAtMost (19 * n) (length p')) (TookAtMost (19 * suc n) (length p))
          (read_addresses n p') _ (read_addresses-Took n p' (omega (arith, t)))
          λ (rest, p'') t'. omega (arith, t, t')

-- The keys and the user data have the sizes of the arrays of the struct.
pub record PrivateIsSized (t : PrivateToken) : Type 0 where
  pub key_size : length t.client_to_server_key ≡ 32
  pub other_key_size : length t.server_to_client_key ≡ 32
  pub user_size : length t.user_data ≡ 256

-- `netcode_read_connect_token_private` on a buffer of 1024 bytes stays inside of it, whatever the
-- bytes are: the token is refused, or it has arrays of the right sizes.
pub private_read-Safe :
    (buffer : List ℕ) → length buffer ≡ 1024 → Safe PrivateIsSized (Private.read buffer 1024)
unfolding Private.read
private_read-Safe buffer h =
    Safe-bind (Took 8 (length buffer)) PrivateIsSized (read_uint64 buffer) _
      (read_uint64-Took buffer (omega (arith, h)))
      λ (client_id, p) t.
        Safe-bind (Took 4 (length p)) PrivateIsSized (read_uint32 p) _
          (read_uint32-Took p (omega (arith, h, t)))
          λ (timeout, p0) t0.
            Safe-bind (Took 4 (length p0)) PrivateIsSized (read_uint32 p0) _
              (read_uint32-Took p0 (omega (arith, h, t, t0)))
              λ (num, p1) t1. Safe-refuse PrivateIsSized (num == 0) _ λ some_address.
                Safe-refuse PrivateIsSized (ltb max_servers_per_connect num) _ λ fits.
                  Safe-bind (TookAtMost (19 * num) (length p1)) PrivateIsSized
                    (read_addresses num p1) _
                    (read_addresses-Took num p1 (omega (arith, h, t, t0, t1, ltb→le 32 num fits)))
                    λ (addresses, p2) t2.
                      keys_and_user_data client_id timeout addresses p2
                        (omega (arith, h, t, t0, t1, t2, ltb→le 32 num fits))
  where
    keys_and_user_data :
        (client_id timeout : ℕ) (addresses : List Address) (p : List ℕ)
        → 320 ≤ length p
        → Safe PrivateIsSized (do
          (key, p) ← read_bytes 32 p
          (key', p) ← read_bytes 32 p
          (user_data, p) ← read_bytes 256 p
          ok (record {
            client_id = client_id;
            timeout_seconds = timeout;
            server_addresses = addresses;
            client_to_server_key = key;
            server_to_client_key = key';
            user_data = user_data;
          }))
    keys_and_user_data client_id timeout addresses p k =
        Safe-bind (TookBytes 32 (length p)) PrivateIsSized (read_bytes 32 p) _
          (read_bytes-Took 32 p (omega arith))
          λ (key, p0) t0.
            Safe-bind (TookBytes 32 (length p0)) PrivateIsSized (read_bytes 32 p0) _
              (read_bytes-Took 32 p0 (omega (arith, t0.1)))
              λ (key', p1) t1.
                Safe-bind (TookBytes 256 (length p1)) PrivateIsSized (read_bytes 256 p1) _
                  (read_bytes-Took 256 p1 (omega (arith, t0.1, t1.1)))
                  λ (user_data, p2) t2. record {
                    key_size = t0.0;
                    other_key_size = t1.0;
                    user_size = t2.0;
                  }

pub ChallengeIsSized : ChallengeToken → Type 0
ChallengeIsSized t = length t.user_data ≡ 256

module _ (S : Sodium) (sound : IsAead S.encrypt S.decrypt) where
  -- Decrypting a challenge token keeps its length.
  pub challenge_decrypt-Safe :
      (buffer : List ℕ) (sequence : ℕ) (key : List ℕ)
      → length buffer ≡ 300
      → Safe (λ l. length l ≡ 300) (Challenge.decrypt S buffer sequence key)
  unfolding Challenge.decrypt
  challenge_decrypt-Safe buffer sequence key h =
      Safe-bind (λ l. length l ≡ 300) (λ l. length l ≡ 300) (region buffer 300) _
        (region-Safe buffer 300 (omega (arith, h)))
        λ message size.
          Safe-weaken (λ l. length l ≡ length message) (λ l. length l ≡ 300) _
            (decrypt_aead-Safe S message [] (nonce_of sequence) key sound) (λ l e. e ∙ size)

-- `netcode_read_challenge_token` on a buffer of 300 bytes stays inside of it.
pub challenge_read-Safe :
    (buffer : List ℕ) → length buffer ≡ 300 → Safe ChallengeIsSized (Challenge.read buffer 300)
unfolding Challenge.read ChallengeIsSized
challenge_read-Safe buffer h =
    Safe-bind (Took 8 (length buffer)) ChallengeIsSized (read_uint64 buffer) _
      (read_uint64-Took buffer (omega (arith, h)))
      λ (client_id, p) t.
        Safe-bind (TookBytes 256 (length p)) ChallengeIsSized (read_bytes 256 p) _
          (read_bytes-Took 256 p (omega (arith, h, t))) λ (user_data, p') t'. t'.0
