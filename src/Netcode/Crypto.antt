-- ===== src/Netcode/Crypto.antt =====
-- netcode/netcode.c: the calls of the cryptography of sodium, which is a parameter.
pub mod Plain
use yojimbo_cmake.Common.{
  ℕ, zero, suc, ◌≤◌, refl, [], ◌∷◌, append-nil, arith, ◌+◌, ◌≡◌, Option, none, some, List, ◌++◌,
  length, length-append, length-drop, drop,
}
use yojimbo_cmake.Common.Results.{Result, ok, invalid, Safe}

-- `crypto_aead_chacha20poly1305_ietf_encrypt` and `_decrypt`, and the same with `xchacha20`: from
-- the message, the additional data, the nonce and the key to the bytes produced, or `none` for a
-- result other than 0.
pub record Sodium : Type 0 where
  pub encrypt : List ℕ → List ℕ → List ℕ → List ℕ → Option (List ℕ)
  pub decrypt : List ℕ → List ℕ → List ℕ → List ℕ → Option (List ℕ)
  pub encrypt_bignonce : List ℕ → List ℕ → List ℕ → List ℕ → Option (List ℕ)
  pub decrypt_bignonce : List ℕ → List ℕ → List ℕ → List ℕ → Option (List ℕ)

abbrev pub mac_bytes : ℕ
mac_bytes = 16

-- What the documentation says of an encryption with associated data: the output is longer by the
-- mac, encryption does not fail, and decryption gives back the message.
pub record IsAead (encrypt decrypt : List ℕ → List ℕ → List ℕ → List ℕ → Option (List ℕ))
    : Type 0 where
  pub encrypts :
      (m additional nonce key : List ℕ)
      → (c : List ℕ) × (encrypt m additional nonce key ≡ some c) × (length c ≡ length m + mac_bytes)
  pub decrypts :
      (m additional nonce key c : List ℕ)
      → encrypt m additional nonce key ≡ some c
      → decrypt c additional nonce key ≡ some m
  pub shorter :
      (c additional nonce key m : List ℕ)
      → decrypt c additional nonce key ≡ some m
      → length c ≡ length m + mac_bytes

module _ (S : Sodium) where
  in_place : List ℕ → Option (List ℕ) → Result (List ℕ)
  in_place message none = invalid
  in_place message (some m) = ok (m ++ drop (length m) message)

  -- The bytes that stand at `message` afterwards, or NETCODE_ERROR. An encryption is longer than
  -- the message, a decryption leaves the mac where it is.
  unfoldable pub encrypt_aead : List ℕ → List ℕ → List ℕ → List ℕ → Result (List ℕ)
  unfolding in_place
  encrypt_aead message additional nonce key =
      in_place message (S.encrypt message additional nonce key)

  unfoldable pub decrypt_aead : List ℕ → List ℕ → List ℕ → List ℕ → Result (List ℕ)
  unfolding in_place
  decrypt_aead message additional nonce key =
      in_place message (S.decrypt message additional nonce key)

  unfoldable pub encrypt_aead_bignonce : List ℕ → List ℕ → List ℕ → List ℕ → Result (List ℕ)
  unfolding in_place
  encrypt_aead_bignonce message additional nonce key =
      in_place message (S.encrypt_bignonce message additional nonce key)

  unfoldable pub decrypt_aead_bignonce : List ℕ → List ℕ → List ℕ → List ℕ → Result (List ℕ)
  unfolding in_place
  decrypt_aead_bignonce message additional nonce key =
      in_place message (S.decrypt_bignonce message additional nonce key)

  drop-past : (n : ℕ) (l : List ℕ) → length l ≤ n → drop n l ≡ []
  drop-past zero [] h = refl
  drop-past zero (x ∷ l) h = absurd (omega arith)
  drop-past (suc n) [] h = refl
  drop-past (suc n) (x ∷ l) h = drop-past n l (omega arith)

  -- Decryption in place does not change the number of bytes.
  in_place-Safe :
      (message : List ℕ) (r : Option (List ℕ))
      → ((m : List ℕ) → r ≡ some m → length message ≡ length m + mac_bytes)
      → Safe (λ opened. length opened ≡ length message) (in_place message r)
  unfolding in_place
  in_place-Safe message none h = tt
  in_place-Safe message (some m) h =
      omega
        (arith, length-append m (drop (length m) message), length-drop (length m) message, h m refl)

  no_fault : (message : List ℕ) (r : Option (List ℕ)) → Safe (λ c. Unit {0}) (in_place message r)
  unfolding in_place
  no_fault message none = tt
  no_fault message (some m) = tt

  -- Encryption in place reads nothing outside of the message.
  pub encrypt_aead-Safe :
      (message additional nonce key : List ℕ)
      → Safe (λ c. Unit {0}) (encrypt_aead message additional nonce key)
  unfolding encrypt_aead
  encrypt_aead-Safe message additional nonce key =
      no_fault message (S.encrypt message additional nonce key)

  pub decrypt_aead-Safe :
      (message additional nonce key : List ℕ)
      → IsAead S.encrypt S.decrypt
      → Safe (λ opened. length opened ≡ length message) (decrypt_aead message additional nonce key)
  unfolding decrypt_aead
  decrypt_aead-Safe message additional nonce key a =
      in_place-Safe message (S.decrypt message additional nonce key)
        (λ m e. a.shorter message additional nonce key m e)

  pub decrypt_aead_bignonce-Safe :
      (message additional nonce key : List ℕ)
      → IsAead S.encrypt_bignonce S.decrypt_bignonce
      → Safe
          (λ opened. length opened ≡ length message)
          (decrypt_aead_bignonce message additional nonce key)
  unfolding decrypt_aead_bignonce
  decrypt_aead_bignonce-Safe message additional nonce key a =
      in_place-Safe message (S.decrypt_bignonce message additional nonce key)
        (λ m e. a.shorter message additional nonce key m e)

  -- A message that is encrypted in place has its mac behind it, and is there again when that is
  -- decrypted in place.
  pub record IsSealed (m : List ℕ) (encrypted decrypted : List ℕ → Result (List ℕ)) (c : List ℕ)
      : Type 0 where
    pub encrypts : encrypted m ≡ ok c
    pub longer : length c ≡ length m + mac_bytes
    pub decrypts : decrypted c ≡ ok (m ++ drop (length m) c)

  in_place-IsSealed :
      (encrypt decrypt : List ℕ → List ℕ → List ℕ → List ℕ → Option (List ℕ))
      (m additional nonce key : List ℕ)
      → IsAead encrypt decrypt
      → (c : List ℕ) × IsSealed m
          (λ l. in_place l (encrypt l additional nonce key))
          (λ l. in_place l (decrypt l additional nonce key))
          c
  unfolding in_place
  in_place-IsSealed encrypt decrypt m additional nonce key a =
      let (c, e, longer) = a.encrypts m additional nonce key in
      (
        c,
        record {
          encrypts = rw (e, in_place) (rw (drop-past (length c) m (omega arith), append-nil) refl);
          longer = longer;
          decrypts = rw (a.decrypts m additional nonce key c e, in_place) refl;
        },
      )

  pub sealed_lem :
      (m additional nonce key : List ℕ)
      → IsAead S.encrypt S.decrypt
      → (c : List ℕ) × IsSealed m
          (λ l. encrypt_aead l additional nonce key)
          (λ l. decrypt_aead l additional nonce key)
          c
  unfolding encrypt_aead decrypt_aead
  sealed_lem m additional nonce key a =
      in_place-IsSealed S.encrypt S.decrypt m additional nonce key a

  pub bignonce-IsSealed :
      (m additional nonce key : List ℕ)
      → IsAead S.encrypt_bignonce S.decrypt_bignonce
      → (c : List ℕ) × IsSealed m
          (λ l. encrypt_aead_bignonce l additional nonce key)
          (λ l. decrypt_aead_bignonce l additional nonce key)
          c
  unfolding encrypt_aead_bignonce decrypt_aead_bignonce
  bignonce-IsSealed m additional nonce key a =
      in_place-IsSealed S.encrypt_bignonce S.decrypt_bignonce m additional nonce key a
