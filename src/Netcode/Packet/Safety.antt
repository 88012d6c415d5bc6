-- ===== src/Netcode/Packet/Safety.antt =====
-- `netcode_read_packet` on any bytes: it stays inside a buffer of the length it is told.
use yojimbo_cmake.Common.{
  ℕ, zero, suc, ◌+◌, ◌-◌, ◌/◌, ◌%◌, ◌≤◌, ◌≡◌, refl, ◌∙◌, not, ◌||◌, Bool, true, false, Bool-cases,
  inl, inr, Option, none, some, List, [], ◌∷◌, ltb, leb, ltb→le, ◌==◌, if◌then◌else◌, length, arith,
}
use yojimbo_cmake.Common.Results.{
  Result, ok, invalid, fault, ◌>>=◌, Safe, Safe-bind, Safe-refuse, Safe-weaken,
}
use yojimbo_cmake.Common.Memory.{region, region-Safe}
use yojimbo_cmake.Reliable.Bytes
use yojimbo_cmake.Reliable.Bytes.{Took}
use yojimbo_cmake.Netcode.Bytes.{read_uint32, read_uint64, read_bytes, write_array}
use yojimbo_cmake.Netcode.Replay.{ReplayProtection}
use yojimbo_cmake.Netcode.Crypto.{
  Sodium, IsAead, decrypt_aead, decrypt_aead-Safe, decrypt_aead_bignonce-Safe,
}
use yojimbo_cmake.Netcode.Token.{
  version_info_bytes, same_version, connect_token_nonce_bytes, connect_token_private_bytes,
  challenge_token_bytes,
}
use yojimbo_cmake.Netcode.Token.Private
use yojimbo_cmake.Netcode.Token.Challenge.{nonce_of}
use yojimbo_cmake.Netcode.Packet.Write.{associated_data}
use yojimbo_cmake.Netcode.Packet.{
  Packet, request, denied, challenge, response, keep_alive, payload, disconnect,
  connection_num_packets, max_payload_bytes,
}
use yojimbo_cmake.Netcode.Packet.Sequence.{read_sequence}
use yojimbo_cmake.Netcode.Packet.Read.{
  Context, given, request_packet_bytes, read_body, is_replay, read_request, open_encrypted,
  receive_opened, read_by_prefix, read_packet,
}

pub read_uint32-Took : (p : List ℕ) → 4 ≤ length p → Safe (Took 4 (length p)) (read_uint32 p)
unfolding Bytes.read_uint32 Bytes.read_uint8
read_uint32-Took [] h = absurd (omega arith)
read_uint32-Took (a ∷ []) h = absurd (omega arith)
read_uint32-Took (a ∷ b ∷ []) h = absurd (omega arith)
read_uint32-Took (a ∷ b ∷ c ∷ []) h = absurd (omega arith)
read_uint32-Took (a ∷ b ∷ c ∷ d ∷ p) h = omega arith

pub read_uint64-Took : (p : List ℕ) → 8 ≤ length p → Safe (Took 8 (length p)) (read_uint64 p)
unfolding Bytes.read_uint64 Bytes.read_uint8
read_uint64-Took [] h = absurd (omega arith)
read_uint64-Took (a ∷ []) h = absurd (omega arith)
read_uint64-Took (a ∷ b ∷ []) h = absurd (omega arith)
read_uint64-Took (a ∷ b ∷ c ∷ []) h = absurd (omega arith)
read_uint64-Took (a ∷ b ∷ c ∷ d ∷ []) h = absurd (omega arith)
read_uint64-Took (a ∷ b ∷ c ∷ d ∷ e ∷ []) h = absurd (omega arith)
read_uint64-Took (a ∷ b ∷ c ∷ d ∷ e ∷ f ∷ []) h = absurd (omega arith)
read_uint64-Took (a ∷ b ∷ c ∷ d ∷ e ∷ f ∷ g ∷ []) h = absurd (omega arith)
read_uint64-Took (a ∷ b ∷ c ∷ d ∷ e ∷ f ∷ g ∷ i ∷ p) h = omega arith

-- An array of `n` bytes is taken of memory of length `m`.
abbrev pub TookBytes : ℕ → ℕ → List ℕ × List ℕ → Type 0
TookBytes n m r = (length r.0 ≡ n) × (length r.1 + n ≡ m)

pub read_bytes-Took :
    (n : ℕ) (p : List ℕ) → n ≤ length p → Safe (TookBytes n (length p)) (read_bytes n p)
unfolding Bytes.read_bytes Bytes.read_uint8
read_bytes-Took zero p h = (refl, omega arith)
read_bytes-Took (suc n) [] h = absurd (omega arith)
read_bytes-Took (suc n) (b ∷ p) h =
    Safe-bind (TookBytes n (length p)) (TookBytes (suc n) (suc (length p))) (read_bytes n p) _
      (read_bytes-Took n p (omega arith)) (λ a t. (omega (arith, t.0), omega (arith, t.1)))

read_sequence-Took :
    (n : ℕ) (p : List ℕ) → n ≤ length p → Safe (Took n (length p)) (read_sequence n p)
unfolding read_sequence Bytes.read_uint8
read_sequence-Took zero p h = omega arith
read_sequence-Took (suc n) [] h = absurd (omega arith)
read_sequence-Took (suc n) (b ∷ p) h =
    Safe-bind (Took n (length p)) (Took (suc n) (suc (length p))) (read_sequence n p) _
      (read_sequence-Took n p (omega arith)) (λ a t. omega (arith, t))

-- A packet whose arrays have the sizes of those of the structs, and a payload of 1 to 1200 bytes.
abbrev pub IsSized : Packet → Type 0
IsSized (request version protocol_id expire_timestamp nonce token) =
    (length version ≡ version_info_bytes)
    × (length nonce ≡ connect_token_nonce_bytes)
    × (length token ≡ connect_token_private_bytes)
IsSized denied = Unit
IsSized (challenge sequence token) = length token ≡ challenge_token_bytes
IsSized (response sequence token) = length token ≡ challenge_token_bytes
IsSized (keep_alive client_index max_clients) = Unit
IsSized (payload bytes) = (1 ≤ length bytes) × (length bytes ≤ max_payload_bytes)
IsSized disconnect = Unit

-- A number and the bytes of a challenge token.
numbered :
    (make : ℕ → List ℕ → Packet) (p : List ℕ)
    → ((sequence : ℕ) (token : List ℕ)
        → length token ≡ challenge_token_bytes
        → IsSized (make sequence token))
    → 308 ≤ length p
    → Safe IsSized (do
      (sequence, p) ← read_uint64 p
      (token, p) ← read_bytes challenge_token_bytes p
      ok (make sequence token))
numbered make p sized h =
    Safe-bind (Took 8 (length p)) IsSized (read_uint64 p) _ (read_uint64-Took p (omega arith))
      λ (sequence, p') t.
        Safe-bind (TookBytes 300 (length p')) IsSized (read_bytes 300 p') _
          (read_bytes-Took 300 p' (omega arith)) λ (token, p'') t'. sized sequence token t'.0

not_same : (n m : ℕ) → not (n == m) ≡ false → n ≡ m
not_same n m h = ground arith

pub Safe-if :
    {A : Type 0} (P : A → Type 0) (b : Bool) (r s : Result A)
    → Safe P r
    → Safe P s
    → Safe P (if b then r else s)
Safe-if P true r s h k = h
Safe-if P false r s h k = k

read_body-Safe : (type : ℕ) (p : List ℕ) (n : ℕ) → n ≤ length p → Safe IsSized (read_body type p n)
unfolding read_body
read_body-Safe type p n h =
    Safe-if IsSized (type == 1) _ _ (Safe-refuse IsSized (not (n == 0)) (ok denied) (λ e. tt)) (
      Safe-if IsSized (type == 2) _ _
        (Safe-refuse IsSized (not (n == 308)) _
          (λ e. numbered challenge p (λ s t k. k) (omega (arith, not_same n 308 e))))
        (Safe-if IsSized (type == 3) _ _
          (Safe-refuse IsSized (not (n == 308)) _
            (λ e. numbered response p (λ s t k. k) (omega (arith, not_same n 308 e))))
          (Safe-if IsSized (type == 4) _ _
            (Safe-refuse IsSized (not (n == 8)) _
              (λ e. two_numbers (omega (arith, not_same n 8 e))))
            (Safe-if IsSized (type == 5) _ _
              (Safe-refuse IsSized (ltb n 1) _ (λ e.
                Safe-refuse IsSized (ltb max_payload_bytes n) _ (λ e'.
                  Safe-bind (TookBytes n (length p)) IsSized (read_bytes n p) _
                    (read_bytes-Took n p h)
                    λ (bytes, p') t.
                      (omega (arith, ltb→le n 1 e), omega (arith, ltb→le 1200 n e')))))
              (Safe-if IsSized (type == 6) _ _
                (Safe-refuse IsSized (not (n == 0)) (ok disconnect) (λ e. tt)) tt)))))
  where
    two_numbers :
        8 ≤ length p
        → Safe IsSized (do
          (client_index, p) ← read_uint32 p
          (max_clients, p) ← read_uint32 p
          ok (keep_alive client_index max_clients))
    two_numbers k =
        Safe-bind (Took 4 (length p)) IsSized (read_uint32 p) _ (read_uint32-Took p (omega arith))
          λ (client_index, p') t.
            Safe-bind (Took 4 (length p')) IsSized (read_uint32 p') _
              (read_uint32-Took p' (omega arith)) λ (max_clients, p'') t'. tt

Safe-given :
    {A B : Type 0} (P : B → Type 0) (a : Option A) (f : A → Result B)
    → ((x : A) → Safe P (f x))
    → Safe P (given a >>= f)
Safe-given P none f k = tt
Safe-given P (some x) f k = k x

module _ (S : Sodium) (context : Context) where
  pub decrypt-Safe :
      IsAead S.encrypt_bignonce S.decrypt_bignonce
      → (p version : List ℕ) (protocol_id expire_timestamp : ℕ) (nonce key : List ℕ)
      → length version ≡ 13
      → 1024 ≤ length p
      → Safe
          (λ l. length l ≡ 1024)
          (Private.decrypt S p version protocol_id expire_timestamp nonce key)
  unfolding Private.decrypt Private.additional_data
  decrypt-Safe a p version protocol_id expire_timestamp nonce key hv h =
      rw (write_array 13 version hv) (
        Safe-bind (λ l. length l ≡ 1024) (λ l. length l ≡ 1024) (region p 1024) _
          (region-Safe p 1024 h)
          λ message size.
            Safe-weaken (λ l. length l ≡ length message) (λ l. length l ≡ 1024) _
              (decrypt_aead_bignonce-Safe S message _ nonce key a) (λ l e. e ∙ size))

  read_request-Safe :
      IsAead S.encrypt_bignonce S.decrypt_bignonce
      → (p : List ℕ) (n : ℕ) → n ≤ suc (length p)
      → Safe IsSized (read_request S context p n)
  unfolding read_request
  read_request-Safe a p n h = Safe-refuse IsSized (not (context.allowed_packets 0)) _ λ e.
      Safe-refuse IsSized (not (n == request_packet_bytes)) _ λ size.
        Safe-given IsSized context.private_key _ λ key.
          Safe-bind (TookBytes 13 (length p)) IsSized (read_bytes 13 p) _
            (read_bytes-Took 13 p (omega (arith, not_same n 1078 size)))
            λ (version, p0) t0. Safe-refuse IsSized (not (same_version version)) _ λ e.
              Safe-bind (Took 8 (length p0)) IsSized (read_uint64 p0) _
                (read_uint64-Took p0 (omega (arith, not_same n 1078 size, t0.1)))
                λ (id, p1) t1. Safe-refuse IsSized (not (id == context.protocol_id)) _ λ e.
                  Safe-bind (Took 8 (length p1)) IsSized (read_uint64 p1) _
                    (read_uint64-Took p1 (omega (arith, not_same n 1078 size, t0.1, t1)))
                    λ (expire_timestamp, p2) t2.
                      Safe-refuse IsSized (leb expire_timestamp context.current_timestamp) _ λ e.
                        Safe-bind (TookBytes 24 (length p2)) IsSized (read_bytes 24 p2) _
                          (read_bytes-Took 24 p2
                            (omega (arith, not_same n 1078 size, t0.1, t1, t2)))
                          λ (nonce, p3) t3.
                            Safe-bind (λ l. length l ≡ 1024) IsSized
                              (Private.decrypt S p3 version context.protocol_id expire_timestamp
                                nonce key)
                              _
                              (decrypt-Safe a p3 version context.protocol_id expire_timestamp nonce
                                key t0.0 (omega (arith, not_same n 1078 size, t0.1, t1, t2, t3.1)))
                              λ opened l.
                                Safe-bind (TookBytes 1024 (length opened)) IsSized
                                  (read_bytes 1024 opened) _
                                  (read_bytes-Took 1024 opened (omega (arith, l)))
                                  λ (token, p4) t4. (t0.0, t3.0, t4.0)

  -- What is decrypted is at least as long as it is said to be.
  abbrev Opened : ℕ × List ℕ × ℕ → Type 0
  Opened (sequence, p, n) = n ≤ length p

  open_encrypted-Safe :
      IsAead S.encrypt S.decrypt
      → (p : List ℕ) (n prefix_byte : ℕ) (replay : Option ReplayProtection) → n ≤ suc (length p)
      → Safe Opened (open_encrypted S context p n prefix_byte replay)
  unfolding open_encrypted
  open_encrypted-Safe a p n prefix_byte replay h =
      Safe-given Opened context.read_packet_key _ λ key. Safe-refuse Opened (ltb n 18) _ λ e.
        Safe-refuse Opened (leb connection_num_packets (prefix_byte % 16)) _ λ e'.
          Safe-refuse Opened (not (context.allowed_packets (prefix_byte % 16))) _ λ e'.
            Safe-refuse Opened (ltb (prefix_byte / 16) 1 || ltb 8 (prefix_byte / 16)) _ λ e'.
              Safe-refuse Opened (ltb n (1 + prefix_byte / 16 + 16)) _ λ fits.
                Safe-bind (Took (prefix_byte / 16) (length p)) Opened
                  (read_sequence (prefix_byte / 16) p) _
                  (read_sequence-Took (prefix_byte / 16) p
                    (omega (arith, ltb→le n (1 + prefix_byte / 16 + 16) fits)))
                  λ (sequence, p') t.
                    Safe-refuse Opened (is_replay (prefix_byte % 16) sequence replay) _ λ e'.
                      Safe-refuse Opened (ltb (n - (1 + prefix_byte / 16)) 16) _ λ e'.
                        Safe-bind (λ l. length l ≡ n - (1 + prefix_byte / 16)) Opened
                          (region p' (n - (1 + prefix_byte / 16))) _
                          (region-Safe p' (n - (1 + prefix_byte / 16))
                            (omega (arith, t, ltb→le n (1 + prefix_byte / 16 + 16) fits)))
                          λ message size.
                            Safe-bind (λ l. length l ≡ length message) Opened
                              (decrypt_aead S message
                                (associated_data context.protocol_id prefix_byte)
                                (nonce_of sequence) key)
                              _ (decrypt_aead-Safe S message _ (nonce_of sequence) key a)
                              λ opened l. omega (arith, l, size)

  -- A packet that is read has arrays of the right size.
  abbrev pub PacketIsSized : Packet × ℕ → Type 0
  PacketIsSized r = IsSized r.0

  receive_opened-Safe :
      (type : ℕ) (replay : Option ReplayProtection) (r : Result (ℕ × List ℕ × ℕ))
      → Safe Opened r
      → Safe PacketIsSized (receive_opened S context type replay r).0
  unfolding receive_opened
  receive_opened-Safe type replay (ok (sequence, p, n)) h =
      Safe-bind IsSized PacketIsSized (read_body type p n) _ (read_body-Safe type p n h) (λ q k. k)
  receive_opened-Safe type replay invalid h = tt
  receive_opened-Safe type replay fault h = h

  read_by_prefix-Safe :
      IsAead S.encrypt S.decrypt
      → IsAead S.encrypt_bignonce S.decrypt_bignonce
      → (prefix_byte n : ℕ) (p : List ℕ) (replay : Option ReplayProtection) → n ≤ suc (length p)
      → Safe PacketIsSized (read_by_prefix S context prefix_byte p n replay).0
  unfolding read_by_prefix
  read_by_prefix-Safe a a' prefix_byte n p replay h = elim (Bool-cases (prefix_byte == 0)) [
    | inl e ↦ rw e (
        Safe-bind IsSized PacketIsSized (read_request S context p n) _ (read_request-Safe a' p n h)
          (λ q k. k))
    | inr e ↦ rw e (
        receive_opened-Safe (prefix_byte % 16) replay _
          (open_encrypted-Safe a p n prefix_byte replay h))
  ]

  -- On a buffer of at least the length given, whatever its bytes and the state of the replay
  -- protection are, nothing outside of it is read: the packet is refused, or a packet is returned
  -- whose arrays have the size of those of its struct, with a payload of 1 to 1200 bytes.
  pub read_packet-Safe :
      IsAead S.encrypt S.decrypt
      → IsAead S.encrypt_bignonce S.decrypt_bignonce
      → (buffer : List ℕ) (buffer_length : ℕ) (replay : Option ReplayProtection)
      → buffer_length ≤ length buffer
      → Safe PacketIsSized (read_packet S context buffer buffer_length replay).0
  unfolding read_packet
  read_packet-Safe a a' [] n replay h = elim (Bool-cases (ltb n 1)) [
    | inl e ↦ rw e tt
    | inr e ↦ absurd (omega (arith, ltb→le n 1 e))
  ]
  read_packet-Safe a a' (b ∷ p) n replay h = elim (Bool-cases (ltb n 1)) [
    | inl e ↦ rw e tt
    | inr e ↦ rw e (read_by_prefix-Safe a a' b n p replay h)
  ]
