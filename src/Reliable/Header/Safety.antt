-- ===== src/Reliable/Header/Safety.antt =====
-- `reliable_read_packet_header` on any bytes: it stays inside a packet of the length it is told.
use yojimbo_cmake.Common.{
  ℕ, suc, ◌+◌, ◌-◌, ◌*◌, ◌≤◌, ◌≡◌, refl, List, [], ◌∷◌, ltb, ltb→le, Bool-cases, inl, inr, arith,
  length, get_or,
}
use yojimbo_cmake.Common.Results.{Result, ok, ◌>>=◌, Safe, Safe-bind, Safe-refuse, Safe-weaken}
use yojimbo_cmake.Reliable.Bytes.{read_uint8, read_uint16, Took, read_uint8-Took, read_uint16-Took}
use yojimbo_cmake.Reliable.Header.{
  PacketHeader, has_bit, read_ack, count, expected_bytes, read_ack_byte, read_packet_header,
}

-- One byte of ack is read, or two, or the packet is refused as too short.
abbrev TookAck : List ℕ → ℕ × List ℕ → Type 0
TookAck p r = (length r.1 + 1 ≤ length p) × (length p ≤ length r.1 + 2)

read_ack-Safe :
    (prefix_byte n sequence : ℕ) (p : List ℕ)
    → n ≤ 3 + length p
    → Safe (TookAck p) (read_ack prefix_byte n sequence p)
unfolding read_ack
read_ack-Safe prefix_byte n sequence p h = elim (Bool-cases (has_bit prefix_byte 5)) [
  | inl e ↦ rw e (
      Safe-refuse (TookAck p) (ltb n 4) _ (λ r.
        Safe-bind (Took 1 (length p)) (TookAck p) (read_uint8 p) _
          (read_uint8-Took p (omega (arith, ltb→le n 4 r))) (λ a t. omega arith)))
  | inr e ↦ rw e (
      Safe-refuse (TookAck p) (ltb n 5) (read_uint16 p) (λ r.
        Safe-weaken (Took 2 (length p)) (TookAck p) (read_uint16 p)
          (read_uint16-Took p (omega (arith, ltb→le n 5 r))) (λ a t. omega arith)))
]

read_ack_byte-Safe :
    (prefix_byte k acc : ℕ) (p : List ℕ)
    → count (has_bit prefix_byte (k + 1)) ≤ length p
    → Safe
        (Took (count (has_bit prefix_byte (k + 1))) (length p))
        (read_ack_byte prefix_byte k acc p)
unfolding read_ack_byte
read_ack_byte-Safe prefix_byte k acc p h = elim (Bool-cases (has_bit prefix_byte (k + 1))) [
  | inl e ↦
      rw e (
        Safe-bind (Took 1 (length p)) _ (read_uint8 p) _ (read_uint8-Took p (rw e at h)) (λ a t. t))
  | inr e ↦ rw e (omega arith)
]

-- A header takes at least 4 and at most `n` bytes, and has the sequence number given.
abbrev pub Within : ℕ → ℕ → PacketHeader × ℕ → Type 0
Within n sequence r = (4 ≤ r.1) × (r.1 ≤ n) × (r.0.sequence ≡ sequence)

-- The sequence number of a packet: the two bytes behind the prefix.
abbrev pub sequence_of : List ℕ → ℕ
sequence_of packet = get_or packet 1 0 + get_or packet 2 0 * 256

-- The part of `read_packet_header` behind the acks, at `p` in a packet of `total` bytes.
abbrev read_rest : ℕ → ℕ → ℕ → ℕ → List ℕ → Result (PacketHeader × ℕ)
read_rest total prefix_byte sequence ack p = do
  (ack_bits, p) ← read_ack_byte prefix_byte 0 0xFFFFFFFF p
  (ack_bits, p) ← read_ack_byte prefix_byte 1 ack_bits p
  (ack_bits, p) ← read_ack_byte prefix_byte 2 ack_bits p
  (ack_bits, p) ← read_ack_byte prefix_byte 3 ack_bits p
  ok (record { sequence = sequence; ack = ack; ack_bits = ack_bits }, total - length p)

read_rest-Safe :
    (total prefix_byte sequence ack n : ℕ) (p : List ℕ)
    → length p + 4 ≤ total
    → total - length p + expected_bytes prefix_byte ≤ n
    → n ≤ total
    → Safe (Within n sequence) (read_rest total prefix_byte sequence ack p)
unfolding expected_bytes
read_rest-Safe total prefix_byte sequence ack n p h fits le =
    Safe-bind (Took c1 (length p)) (Within n sequence) (read_ack_byte prefix_byte 0 0xFFFFFFFF p) _
      (read_ack_byte-Safe prefix_byte 0 0xFFFFFFFF p (omega arith))
      λ (a0, p0) t0.
        Safe-bind (Took c2 (length p0)) (Within n sequence) (read_ack_byte prefix_byte 1 a0 p0) _
          (read_ack_byte-Safe prefix_byte 1 a0 p0 (omega arith))
          λ (a1, p1) t1.
            Safe-bind (Took c3 (length p1)) (Within n sequence) (read_ack_byte prefix_byte 2 a1 p1)
              _ (read_ack_byte-Safe prefix_byte 2 a1 p1 (omega arith))
              λ (a2, p2) t2.
                Safe-bind (Took c4 (length p2)) (Within n sequence)
                  (read_ack_byte prefix_byte 3 a2 p2) _
                  (read_ack_byte-Safe prefix_byte 3 a2 p2 (omega arith))
                  λ (a3, p3) t3. (omega arith, omega arith, refl)
  where
    c1 : ℕ
    c1 = count (has_bit prefix_byte 1)

    c2 : ℕ
    c2 = count (has_bit prefix_byte 2)

    c3 : ℕ
    c3 = count (has_bit prefix_byte 3)

    c4 : ℕ
    c4 = count (has_bit prefix_byte 4)

-- On a packet of `n` bytes, whatever they are, nothing outside of them is read: the packet is
-- refused, or a header of 4 to `n` bytes is returned, with the sequence number that follows the
-- prefix.
pub read_packet_header-Safe :
    (packet : List ℕ) (n : ℕ)
    → n ≤ length packet
    → Safe (Within n (sequence_of packet)) (read_packet_header packet n)
unfolding read_packet_header read_uint8 read_uint16
read_packet_header-Safe [] n h =
    Safe-refuse (Within n _) (ltb n 3) _ (λ r. absurd (omega (arith, ltb→le n 3 r)))
read_packet_header-Safe (b ∷ []) n h =
    Safe-refuse (Within n _) (ltb n 3) _ (λ r. absurd (omega (arith, ltb→le n 3 r)))
read_packet_header-Safe (b ∷ s ∷ []) n h =
    Safe-refuse (Within n _) (ltb n 3) _ (λ r. absurd (omega (arith, ltb→le n 3 r)))
read_packet_header-Safe (b ∷ s ∷ t ∷ p) n h = Safe-refuse (Within n _) (ltb n 3) _ λ r.
    Safe-refuse (Within n (s + t * 256)) (has_bit b 0) _ λ even.
      Safe-bind (TookAck p) (Within n (s + t * 256)) (read_ack b n (s + t * 256) p) _
        (read_ack-Safe b n (s + t * 256) p (omega arith))
        λ (ack, q) took.
          Safe-refuse (Within n (s + t * 256))
            (ltb n (suc (suc (suc (length p))) - length q + expected_bytes b)) _
            λ fits.
              read_rest-Safe (suc (suc (suc (length p)))) b (s + t * 256) ack n q (omega arith)
                (ltb→le n _ fits) h
