-- ===== src/Netcode/Packet/Request.antt =====
-- Connection requests, which carry a private token to a server.
use yojimbo_cmake.Common.{
  ℕ, suc, ◌<◌, ◌≡◌, refl, ap, subst, true, Option, some, List, [], ◌∷◌, ◌++◌, append-nil, lt→leb,
  ==_iff, length, length-append, arith,
}
use yojimbo_cmake.Common.Results.{ok, Safe}
use yojimbo_cmake.Reliable.Bytes
use yojimbo_cmake.Reliable.Bytes.{read_uint64_lem}
use yojimbo_cmake.Netcode.Bytes.{write_uint64, write_array, read_array, read_bytes}
use yojimbo_cmake.Netcode.Address
use yojimbo_cmake.Netcode.Replay.{ReplayProtection}
use yojimbo_cmake.Netcode.Crypto.{Sodium, IsAead}
use yojimbo_cmake.Netcode.Token.{version_info, connect_token_private_bytes}
use yojimbo_cmake.Netcode.Token.Private
use yojimbo_cmake.Netcode.Token.Private.{PrivateToken}
use yojimbo_cmake.Netcode.Token.PrivateRoundTrip.{PrivateIsValid, private_lem}
use yojimbo_cmake.Netcode.Packet.{request}
use yojimbo_cmake.Netcode.Packet.Write.{write_packet}
use yojimbo_cmake.Netcode.Packet.Read.{Context, read_request, read_by_prefix, read_packet}
use yojimbo_cmake.Netcode.Packet.Safety.{decrypt-Safe}

read_all : (n : ℕ) (l : List ℕ) → length l ≡ n → read_bytes n l ≡ ok (l, [])
read_all n l h = subst (λ m. read_bytes n m ≡ ok (l, [])) (append-nil l) (read_array n l [] h)

-- The bytes behind the prefix.
request_bytes : ℕ → ℕ → List ℕ → List ℕ → List ℕ
request_bytes protocol_id expire_timestamp nonce token =
    version_info
    ++ (write_uint64 protocol_id ++ (write_uint64 expire_timestamp ++ (nonce ++ token)))

module _ (S : Sodium) (context : Context) (expire_timestamp : ℕ) (nonce key : List ℕ) where
  module _ (sealed opened : List ℕ) (nonce_size : length nonce ≡ 24) where
    length-request_bytes :
        length sealed ≡ 1024
        → length (request_bytes context.protocol_id expire_timestamp nonce sealed) ≡ 1077
    unfolding request_bytes Bytes.write_uint64
    length-request_bytes h = omega (arith, length-append nonce sealed, nonce_size, h)

    write_request :
        (sequence : ℕ) (k : List ℕ)
        → length sealed ≡ 1024
        → write_packet S
            (request version_info context.protocol_id expire_timestamp nonce sealed)
            sequence
            k
            context.protocol_id
          ≡ ok (0 ∷ request_bytes context.protocol_id expire_timestamp nonce sealed)
    unfolding write_packet request_bytes Bytes.write_uint8 Bytes.write_bytes
    write_request sequence k h =
        rw (write_array 24 nonce nonce_size, write_array 1024 sealed h) refl

    read_request_lem :
        context.private_key ≡ some key
        → context.allowed_packets 0 ≡ true
        → context.current_timestamp < expire_timestamp
        → Private.decrypt S sealed version_info context.protocol_id expire_timestamp nonce key
          ≡ ok opened
        → length opened ≡ 1024
        → read_request S context
            (request_bytes context.protocol_id expire_timestamp nonce sealed)
            1078
          ≡ ok (request version_info context.protocol_id expire_timestamp nonce opened)
    unfolding read_request request_bytes Address.same_parts
    read_request_lem keyed allowed in_time opens h =
        rw
          (
            allowed,
            keyed,
            read_array 13 version_info
                (write_uint64 context.protocol_id
                  ++ (write_uint64 expire_timestamp ++ (nonce ++ sealed)))
                refl,
            read_uint64_lem context.protocol_id
                (write_uint64 expire_timestamp ++ (nonce ++ sealed)),
            (==_iff context.protocol_id context.protocol_id).1 refl,
            read_uint64_lem expire_timestamp (nonce ++ sealed),
            lt→leb expire_timestamp context.current_timestamp in_time,
            read_array 24 nonce sealed nonce_size,
            opens,
            read_all 1024 opened h,
          )
          refl

  -- A private token that can be sent, encrypted with the version, the protocol, the time and the
  -- nonce that go with it, is written as a connection request of 1078 bytes. Before the time has
  -- come, a server of the same protocol with the key of the token, which allows requests, gets the
  -- request from those bytes, with the private token decrypted: what it reads of that is the
  -- private token. The replay protection stays as it is.
  pub request_lem :
      (t : PrivateToken) (sequence : ℕ) (k : List ℕ) (replay : Option ReplayProtection)
      → IsAead S.encrypt_bignonce S.decrypt_bignonce
      → PrivateIsValid t
      → length nonce ≡ 24
      → context.private_key ≡ some key
      → context.allowed_packets 0 ≡ true
      → context.current_timestamp < expire_timestamp
      → (buffer : List ℕ) × (sealed : List ℕ) × (opened : List ℕ) × (bytes : List ℕ)
        × (Private.write t ≡ ok buffer)
        × (Private.encrypt S buffer version_info context.protocol_id expire_timestamp nonce key
            ≡ ok sealed)
        × (write_packet S
              (request version_info context.protocol_id expire_timestamp nonce sealed)
              sequence
              k
              context.protocol_id
            ≡ ok bytes)
        × (length bytes ≡ 1078)
        × (read_packet S context bytes (length bytes) replay ≡ (
          ok (request version_info context.protocol_id expire_timestamp nonce opened, 0),
          replay,
        ))
        × (Private.read opened connect_token_private_bytes ≡ ok t)
  unfolding read_packet read_by_prefix
  request_lem t sequence k replay a v nonce_size keyed allowed in_time =
      let (buffer, sealed, opened, writes, size, encrypts, sealed_size, decrypts, reads) =
        private_lem t S version_info nonce key context.protocol_id expire_timestamp a v refl in
      let length-rest = length-request_bytes sealed opened nonce_size sealed_size in
      (
        buffer,
        sealed,
        opened,
        0 ∷ request_bytes context.protocol_id expire_timestamp nonce sealed,
        writes,
        encrypts,
        write_request sealed opened nonce_size sequence k sealed_size,
        ap suc length-rest,
        rw
            (
              length-rest,
              read_request_lem sealed opened nonce_size keyed allowed in_time decrypts
                  (opened_size sealed opened sealed_size decrypts),
            )
            refl,
        reads,
      )
    where
      opened_size :
          (sealed opened : List ℕ)
          → length sealed ≡ 1024
          → Private.decrypt S sealed version_info context.protocol_id expire_timestamp nonce key
            ≡ ok opened
          → length opened ≡ 1024
      opened_size sealed opened h e = subst (Safe (λ l. length l ≡ 1024)) e (
          decrypt-Safe S context a sealed version_info context.protocol_id expire_timestamp nonce
            key refl (omega (arith, h)))
