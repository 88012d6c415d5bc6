-- ===== src/Netcode/Packet/Total.antt =====
-- Writing a packet stays inside its arrays, and reading one keeps the size of replay protection.
use yojimbo_cmake.Common.{
  ℕ, ◌%◌, ◌≡◌, refl, Bool-cases, inl, inr, Option, none, some, List, [], ◌∷◌, ltb, leb, ◌==◌,
  length,
}
use yojimbo_cmake.Common.Results.{Result, ok, invalid, fault, Safe, Safe-bind}
use yojimbo_cmake.Netcode.Bytes.{write_array}
use yojimbo_cmake.Netcode.Replay.{ReplayProtection}
use yojimbo_cmake.Netcode.Replay.Accepted.{length-advance}
use yojimbo_cmake.Netcode.Crypto.{Sodium, encrypt_aead, encrypt_aead-Safe}
use yojimbo_cmake.Netcode.Packet.{
  Packet, request, denied, challenge, response, keep_alive, payload, disconnect,
}
use yojimbo_cmake.Netcode.Packet.Write.{write_body, write_encrypted, write_packet}
use yojimbo_cmake.Netcode.Packet.Read.{
  Context, noted, open_encrypted, receive_opened, read_by_prefix, read_packet,
}
use yojimbo_cmake.Netcode.Packet.Safety.{IsSized}

-- Replay protection with its 256 entries, and not NULL.
abbrev pub HasSize : Option ReplayProtection → Type 0
HasSize none = ⊥
HasSize (some r) = length r.received_packet ≡ 256

module _ (S : Sodium) where
  module _ (context : Context) (r : ReplayProtection) (size : length r.received_packet ≡ 256) where
    noted-HasSize : (type s : ℕ) → HasSize (noted type s (some r))
    noted-HasSize type s = elim (Bool-cases (leb 4 type)) [
      | inl e ↦ rw e (length-advance r s size)
      | inr e ↦ rw e size
    ]

    receive_opened-HasSize :
        (type : ℕ) (opened : Result (ℕ × List ℕ × ℕ))
        → HasSize (receive_opened S context type (some r) opened).1
    unfolding receive_opened
    receive_opened-HasSize type fault = size
    receive_opened-HasSize type invalid = size
    receive_opened-HasSize type (ok (s, p, n)) = noted-HasSize type s

    pub read_packet-HasSize :
        (buffer : List ℕ) (n : ℕ) → HasSize (read_packet S context buffer n (some r)).1
    unfolding read_packet read_by_prefix
    read_packet-HasSize [] n = size
    read_packet-HasSize (b ∷ p) n = elim (Bool-cases (ltb n 1)) [
      | inl e ↦ rw e size
      | inr e ↦ elim (Bool-cases (b == 0)) [
        | inl z ↦ rw (e, z) size
        | inr z ↦
            rw (e, z) (receive_opened-HasSize (b % 16) (open_encrypted S context p n b (some r)))
      ]
    ]

  -- Anything is a value that is good enough.
  abbrev pub Any {ℓ} : {A : Type ℓ} → A → Type 0
  Any a = Unit

  write_body-Safe : (p : Packet) → IsSized p → Safe Any (write_body p)
  unfolding write_body
  write_body-Safe (request version id expire nonce token) v = tt
  write_body-Safe denied v = tt
  write_body-Safe (challenge s token) v = rw (write_array 300 token v) tt
  write_body-Safe (response s token) v = rw (write_array 300 token v) tt
  write_body-Safe (keep_alive i n) v = tt
  write_body-Safe (payload bytes) v = rw (write_array (length bytes) bytes refl) tt
  write_body-Safe disconnect v = tt

  write_encrypted-Safe :
      (p : Packet) (sequence : ℕ) (key : List ℕ) (protocol_id : ℕ)
      → IsSized p
      → Safe Any (write_encrypted S p sequence key protocol_id)
  unfolding write_encrypted
  write_encrypted-Safe p sequence key protocol_id v =
      Safe-bind Any Any (write_body p) _ (write_body-Safe p v) λ body u.
        Safe-bind Any Any (encrypt_aead S body _ _ key) _ (encrypt_aead-Safe S body _ _ key)
          λ c u. tt

  pub write_packet-Safe :
      (p : Packet) (sequence : ℕ) (key : List ℕ) (protocol_id : ℕ)
      → IsSized p
      → Safe Any (write_packet S p sequence key protocol_id)
  unfolding write_packet
  write_packet-Safe (request version id expire nonce token) sequence key protocol_id (a, b, c) =
      rw (write_array 13 version a, write_array 24 nonce b, write_array 1024 token c) tt
  write_packet-Safe denied sequence key protocol_id v =
      write_encrypted-Safe denied sequence key protocol_id v
  write_packet-Safe (challenge s token) sequence key protocol_id v =
      write_encrypted-Safe (challenge s token) sequence key protocol_id v
  write_packet-Safe (response s token) sequence key protocol_id v =
      write_encrypted-Safe (response s token) sequence key protocol_id v
  write_packet-Safe (keep_alive i n) sequence key protocol_id v =
      write_encrypted-Safe (keep_alive i n) sequence key protocol_id v
  write_packet-Safe (payload bytes) sequence key protocol_id v =
      write_encrypted-Safe (payload bytes) sequence key protocol_id v
  write_packet-Safe disconnect sequence key protocol_id v =
      write_encrypted-Safe disconnect sequence key protocol_id v
