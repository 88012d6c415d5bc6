-- ===== src/Netcode/Packet/Replayed.antt =====
-- Encrypted packets that are read a second time.
use yojimbo_cmake.Common.{
  ℕ, ◌+◌, ◌-◌, ◌/◌, ◌%◌, ◌≤◌, ◌≡◌, sym, ap, refl, not, ◌||◌, Bool, true, Bool-cases, inl, inr,
  Option, some, List, [], ◌∷◌, ltb, leb, ◌==◌, ==_iff, length, arith,
}
use yojimbo_cmake.Common.Results.{
  Returns, Returns-bind, Returns-at, Returns-if, Result, ok, invalid, fault, ◌>>=◌, ◌>>◌, refuse_if,
}
use yojimbo_cmake.Common.Memory.{region}
use yojimbo_cmake.Netcode.Bytes.{read_uint32, read_uint64, read_bytes}
use yojimbo_cmake.Netcode.Replay.{ReplayProtection}
use yojimbo_cmake.Netcode.Replay.Accepted.{already_received-advance}
use yojimbo_cmake.Netcode.Crypto.{Sodium, decrypt_aead}
use yojimbo_cmake.Netcode.Token.{same_version}
use yojimbo_cmake.Netcode.Token.Private
use yojimbo_cmake.Netcode.Token.Challenge.{nonce_of}
use yojimbo_cmake.Netcode.Packet.{Packet, packet_type, connection_num_packets}
use yojimbo_cmake.Netcode.Packet.Sequence.{read_sequence}
use yojimbo_cmake.Netcode.Packet.Write.{associated_data}
use yojimbo_cmake.Netcode.Packet.Read.{
  Context, given, request_packet_bytes, is_replay, noted, read_body, read_request, open_encrypted,
  receive_opened, read_by_prefix, read_packet,
}

-- Two routines that start alike: when the first returns, the second refuses its input.
Refuses-bind {ℓ} :
    {A : Type ℓ} {B : Type 0} (Q : B → Type 0) (r : Result A) (f g : A → Result B)
    → ((a : A) → Returns (λ b. Q b → g a ≡ invalid) (f a))
    → Returns (λ b. Q b → (r >>= g) ≡ invalid) (r >>= f)
Refuses-bind Q (ok a) f g k = k a
Refuses-bind Q invalid f g k = tt
Refuses-bind Q fault f g k = tt

refused : (b : Bool) (r : Result (ℕ × List ℕ × ℕ)) → b ≡ true → (refuse_if b >> r) ≡ invalid
refused b r e = rw e refl

module _ (S : Sodium) (context : Context) where
  open_twice :
      (p : List ℕ) (n prefix_byte : ℕ) (replay replay' : Option ReplayProtection)
      → Returns
          (λ r.
            is_replay (prefix_byte % 16) r.0 replay' ≡ true
            → open_encrypted S context p n prefix_byte replay' ≡ invalid)
          (open_encrypted S context p n prefix_byte replay)
  unfolding open_encrypted
  open_twice p n prefix_byte replay replay' =
      Refuses-bind Again (given context.read_packet_key) _ _ λ key.
        Refuses-bind Again (refuse_if (ltb n 18)) _ _ λ u.
          Refuses-bind Again (refuse_if (leb connection_num_packets (prefix_byte % 16))) _ _ λ u.
            Refuses-bind Again (refuse_if (not (context.allowed_packets (prefix_byte % 16)))) _ _
              λ u.
                Refuses-bind Again
                  (refuse_if (ltb (prefix_byte / 16) 1 || ltb 8 (prefix_byte / 16))) _ _
                  λ u. Refuses-bind Again (refuse_if (ltb n (1 + prefix_byte / 16 + 16))) _ _ λ u.
                    Refuses-bind Again (read_sequence (prefix_byte / 16) p) _ _ λ (sequence, p').
                      Returns-bind _ (refuse_if (is_replay (prefix_byte % 16) sequence replay)) _
                        λ u. Returns-bind _ (refuse_if (ltb (n - (1 + prefix_byte / 16)) 16)) _ λ u.
                          Returns-bind _ (region p' (n - (1 + prefix_byte / 16))) _ λ message.
                            Returns-bind _
                              (decrypt_aead S message
                                (associated_data context.protocol_id prefix_byte)
                                (nonce_of sequence) key)
                              _
                              λ opened again.
                                refused (is_replay (prefix_byte % 16) sequence replay') _ again
    where
      Again : ℕ × List ℕ × ℕ → Type 0
      Again r = is_replay (prefix_byte % 16) r.0 replay' ≡ true

-- The type of the packet is the one that the prefix gives.
read_body-type :
    (type : ℕ) (p : List ℕ) (n : ℕ) → Returns (λ q. packet_type q ≡ type) (read_body type p n)
unfolding read_body
read_body-type type p n =
    Returns-if HasType (type == 1) _ _
      (λ e. Returns-bind HasType (refuse_if (not (n == 0))) _ λ u. same e)
      (Returns-if HasType (type == 2) _ _
        (λ e. Returns-bind HasType (refuse_if (not (n == 308))) _ λ u.
          Returns-bind HasType (read_uint64 p) _
            λ (sequence, p'). Returns-bind HasType (read_bytes 300 p') _ λ r. same e)
        (Returns-if HasType (type == 3) _ _
          (λ e. Returns-bind HasType (refuse_if (not (n == 308))) _ λ u.
            Returns-bind HasType (read_uint64 p) _
              λ (sequence, p'). Returns-bind HasType (read_bytes 300 p') _ λ r. same e)
          (Returns-if HasType (type == 4) _ _
            (λ e. Returns-bind HasType (refuse_if (not (n == 8))) _ λ u.
              Returns-bind HasType (read_uint32 p) _
                λ (client_index, p'). Returns-bind HasType (read_uint32 p') _ λ r. same e)
            (Returns-if HasType (type == 5) _ _
              (λ e. Returns-bind HasType (refuse_if (ltb n 1)) _ λ u.
                Returns-bind HasType (refuse_if (ltb 1200 n)) _
                  λ u. Returns-bind HasType (read_bytes n p) _ λ r. same e)
              (Returns-if HasType (type == 6) _ _
                (λ e. Returns-bind HasType (refuse_if (not (n == 0))) _ λ u. same e) tt)))))
  where
    HasType : Packet → Type 0
    HasType q = packet_type q ≡ type

    same : {k : ℕ} → (type == k) ≡ true → k ≡ type
    same {k} e = sym ((==_iff type k).0 e)

Returns-map :
    (type s : ℕ) (r : Result Packet)
    → Returns (λ q. packet_type q ≡ type) r
    → Returns (λ (x : Packet × ℕ). packet_type x.0 ≡ type) (do packet ← r; ok (packet, s))
Returns-map type s (ok q) h = h
Returns-map type s invalid h = tt
Returns-map type s fault h = tt

is_replay-noted :
    (type s : ℕ) (r : ReplayProtection)
    → length r.received_packet ≡ 256
    → 4 ≤ type
    → is_replay type s (noted type s (some r)) ≡ true
is_replay-noted type s r size h = rw (leb_le h) (already_received-advance r s size)
  where
    leb_le : 4 ≤ type → leb 4 type ≡ true
    leb_le h = ground arith

module _ (S : Sodium) (context : Context) where
  read_request-type :
      (p : List ℕ) (n : ℕ) → Returns (λ q. packet_type q ≡ 0) (read_request S context p n)
  unfolding read_request
  read_request-type p n = Returns-bind _ (refuse_if (not (context.allowed_packets 0))) _ λ u.
      Returns-bind _ (refuse_if (not (n == request_packet_bytes))) _ λ u.
        Returns-bind _ (given context.private_key) _ λ key.
          Returns-bind _ (read_bytes 13 p) _ λ (version, p0).
            Returns-bind _ (refuse_if (not (same_version version))) _ λ u.
              Returns-bind _ (read_uint64 p0) _ λ (id, p1).
                Returns-bind _ (refuse_if (not (id == context.protocol_id))) _ λ u.
                  Returns-bind _ (read_uint64 p1) _ λ (expire_timestamp, p2).
                    Returns-bind _ (refuse_if (leb expire_timestamp context.current_timestamp)) _
                      λ u. Returns-bind _ (read_bytes 24 p2) _ λ (nonce, p3).
                        Returns-bind _
                          (Private.decrypt S p3 version context.protocol_id expire_timestamp nonce
                            key)
                          _ λ opened. Returns-bind _ (read_bytes 1024 opened) _ λ r. refl

  module _ (r : ReplayProtection) (size : length r.received_packet ≡ 256) where
    receive_twice :
        (type : ℕ) (opened again : Result (ℕ × List ℕ × ℕ)) (q : Packet) (s : ℕ)
        (replay : Option ReplayProtection)
        → Returns (λ x. is_replay type x.0 replay ≡ true → again ≡ invalid) opened
        → receive_opened S context type (some r) opened ≡ (ok (q, s), replay)
        → 4 ≤ packet_type q
        → receive_opened S context type replay again ≡ (invalid, replay)
    unfolding receive_opened
    receive_twice type fault again q s replay refuses h protected =
        absurd (Returns-at (λ x. ⊥) fault (q, s) (ap (λ x. x.0) h) tt)
    receive_twice type invalid again q s replay refuses h protected =
        absurd (Returns-at (λ x. ⊥) invalid (q, s) (ap (λ x. x.0) h) tt)
    receive_twice type (ok (s', p, n)) again q s replay refuses h protected =
        rw
          (refuses (
            rw (← ap (λ x. x.1) h)
              (is_replay-noted type s' r size (omega (arith, of_type, protected)))))
          refl
      where
        of_type : packet_type q ≡ type
        of_type =
            Returns-at (λ x. packet_type x.0 ≡ type)
              (do packet ← read_body type p n; ok (packet, s')) (q, s) (ap (λ x. x.0) h)
              (Returns-map type s' (read_body type p n) (read_body-type type p n))

    -- A keep alive, payload or disconnect packet that is read is noted: the same bytes are refused when
    -- they are read with the replay protection that it leaves, and they leave it as it is.
    pub read_packet_twice :
        (buffer : List ℕ) (buffer_length : ℕ) (p : Packet) (sequence : ℕ)
        (replay : Option ReplayProtection)
        → read_packet S context buffer buffer_length (some r) ≡ (ok (p, sequence), replay)
        → 4 ≤ packet_type p
        → read_packet S context buffer buffer_length replay ≡ (invalid, replay)
    unfolding read_packet read_by_prefix
    read_packet_twice [] n q s replay h protected = elim (Bool-cases (ltb n 1)) [
      | inl e ↦ rw e refl
      | inr e ↦ absurd (Returns-at (λ x. ⊥) fault (q, s) (ap (λ x. x.0) (rw e at h)) tt)
    ]
    read_packet_twice (prefix_byte ∷ p) n q s replay h protected = elim (Bool-cases (ltb n 1)) [
      | inl e ↦ rw e refl
      | inr e ↦ elim (Bool-cases (prefix_byte == 0)) [
        | inl z ↦ absurd (
            omega (
              arith,
              protected,
              Returns-at (λ x. packet_type x.0 ≡ 0)
                  (do packet ← read_request S context p n; ok (packet, 0)) (q, s)
                  (ap (λ x. x.0) (rw (e, z) at h))
                  (Returns-map 0 0 (read_request S context p n) (read_request-type p n)),
            ))
        | inr z ↦
            rw (e, z)
              (receive_twice (prefix_byte % 16) (open_encrypted S context p n prefix_byte (some r))
                (open_encrypted S context p n prefix_byte replay) q s replay
                (open_twice S context p n prefix_byte (some r) replay) (rw (e, z) at h) protected)
      ]
    ]
