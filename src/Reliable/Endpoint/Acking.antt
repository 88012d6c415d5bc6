-- ===== src/Reliable/Endpoint/Acking.antt =====
-- `reliable_endpoint_receive_packet` on regular packets: no byte outside of the packet is read, no
-- missing slot is used, and the endpoint stays valid.
use yojimbo_cmake.Common.{
  ℕ, zero, suc, ◌+◌, ◌-◌, ◌/◌, ◌%◌, ◌<◌, ◌≤◌, ◌≡◌, ◌∙◌, ap, Bool, true, not, ◌&&◌, Bool-cases,
  Option-cases, inl, inr, some, List, [], ◌∷◌, ltb, ◌==◌, length, get_or, drop, length-set, All,
  arith,
}
use yojimbo_cmake.Common.Results.{Result, ok, invalid, fault, IsByte, Safe, Safe-bind}
use yojimbo_cmake.Reliable.Sequence.{sub16}
use yojimbo_cmake.Reliable.SequenceBuffer.{insert, find, test_insert}
use yojimbo_cmake.Reliable.SequenceBuffer.Window.{advance_with_cleanup-IsValid}
use yojimbo_cmake.Reliable.SequenceBuffer.Preserved.{insert-IsValid, with_data-IsValid}
use yojimbo_cmake.Reliable.SequenceBuffer.Members.{insert-eq-claim}
use yojimbo_cmake.Reliable.Header.{PacketHeader, read_packet_header}
use yojimbo_cmake.Reliable.Header.Safety.{Within, sequence_of, read_packet_header-Safe}
use yojimbo_cmake.Reliable.Fragment.{cleanup}
use yojimbo_cmake.Reliable.Floats.{Floats}
use yojimbo_cmake.Reliable.Endpoint.Counter
use yojimbo_cmake.Reliable.Endpoint.{Endpoint, Event, bump}
use yojimbo_cmake.Reliable.Endpoint.Valid.{IsValid, bump-IsValid}
use yojimbo_cmake.Reliable.Endpoint.Receive.{
  Environment, no_sent_packet, ack_slot, ack_round, ack_loop, accept_packet, receive_payload,
  receive_regular,
}

module _ (F : Floats) where
  -- Room for one more ack, and it is recorded.
  ack_slot-IsValid : (e : Endpoint F) (q i : ℕ) → IsValid F e → IsValid F (ack_slot F e q i)
  unfolding ack_slot
  ack_slot-IsValid e q i v = elim (Bool-cases taken) [
    | inl t ↦ rw t (
        bump-IsValid F _ Counter.num_packets_acked (record {
          sent =
              with_data-IsValid e.sent_packets _ v.sent (length-set e.sent_packets.entry_data i _);
          sent_small = v.sent_small;
          received = v.received;
          reassembly = v.reassembly;
          in_step = v.in_step;
          acks_fit = room t;
          acks_size = length-set e.acks e.num_acks q ∙ v.acks_size;
        }))
    | inr t ↦ rw t v
  ]
    where
      taken : Bool
      taken =
          not (get_or e.sent_packets.entry_data i (no_sent_packet F)).acked
          && ltb e.num_acks e.config.ack_buffer_size

      room : taken ≡ true → e.num_acks + 1 ≤ e.config.ack_buffer_size
      room t = ground arith

  ack_round-IsValid : (e : Endpoint F) (q bits : ℕ) → IsValid F e → IsValid F (ack_round F e q bits)
  unfolding ack_round
  ack_round-IsValid e q bits v = elim (Bool-cases (bits % 2 == 1)) [
    | inr t ↦ rw t v
    | inl t ↦ rw t (elim (Option-cases (find e.sent_packets q)) [
      | inl n ↦ rw n v
      | inr (i, n) ↦ rw n (ack_slot-IsValid e q i v)
    ])
  ]

  pub ack_loop-IsValid :
      (rounds : ℕ) (e : Endpoint F) (ack i bits : ℕ)
      → IsValid F e
      → IsValid F (ack_loop F rounds e ack i bits)
  unfolding ack_loop
  ack_loop-IsValid zero e ack i bits v = v
  ack_loop-IsValid (suc rounds) e ack i bits v =
      ack_loop-IsValid rounds _ ack (i + 1) (bits / 2) (ack_round-IsValid e (sub16 ack i) bits v)

  module _ (env : Environment) where
    accept_packet-Safe :
        (e : Endpoint F) (h : PacketHeader) (n : ℕ)
        → IsValid F e
        → h.sequence < 65536
        → test_insert e.received_packets h.sequence ≡ true
        → Safe (IsValid F) (accept_packet F env e h n)
    unfolding accept_packet
    accept_packet-Safe e h n v hs t =
        rw (ap (λ r. r.0) (insert-eq-claim e.received_packets h.sequence t), accept_packet)
          (ack_loop-IsValid 32 _ h.ack 0 h.ack_bits (record {
            sent = v.sent;
            sent_small = v.sent_small;
            received =
                with_data-IsValid (insert e.received_packets h.sequence).1 _
                  (insert-IsValid e.received_packets h.sequence v.received hs)
                  (length-set (insert e.received_packets h.sequence).1.entry_data _ _);
            reassembly =
                advance_with_cleanup-IsValid e.fragment_reassembly h.sequence (some cleanup)
                  v.reassembly hs;
            in_step = v.in_step;
            acks_fit = v.acks_fit;
            acks_size = v.acks_size;
          }))

    -- The endpoint that a receive leaves behind, whatever it hands to the callbacks.
    abbrev pub LeavesValid : Endpoint F × List Event → Type 0
    LeavesValid r = IsValid F r.0

    receive_payload-Safe :
        (e : Endpoint F) (h : PacketHeader) (n : ℕ) (packet : List ℕ)
        → IsValid F e
        → h.sequence < 65536
        → Safe LeavesValid (receive_payload F env e h n packet)
    unfolding receive_payload
    receive_payload-Safe e h n packet v hs =
        elim (Bool-cases (ltb e.config.max_packet_size (length packet - n))) [
          | inl t ↦ rw t (bump-IsValid F e Counter.num_packets_too_large_to_receive v)
          | inr t ↦ rw t (elim (Bool-cases (test_insert e.received_packets h.sequence)) [
            | inr s ↦ rw s (bump-IsValid F e Counter.num_packets_stale v)
            | inl s ↦ rw s (elim (Bool-cases (env.accepts h.sequence (drop n packet))) [
              | inr a ↦ rw a v
              | inl a ↦ rw a (
                  Safe-bind (IsValid F) LeavesValid (accept_packet F env e h (length packet)) _
                    (accept_packet-Safe e h (length packet) v hs s) (λ e' v'. v'))
            ])
          ])
        ]

    sequence_of-lt : (packet : List ℕ) → All IsByte packet → sequence_of packet < 65536
    sequence_of-lt [] h = omega arith
    sequence_of-lt (a ∷ []) h = omega arith
    sequence_of-lt (a ∷ b ∷ []) h = omega arith
    sequence_of-lt (a ∷ b ∷ c ∷ p) h = omega arith

    receive_regular_cases :
        (e : Endpoint F) (packet : List ℕ) (r : Result (PacketHeader × ℕ))
        → IsValid F e
        → All IsByte packet
        → Safe (Within (length packet) (sequence_of packet)) r
        → Safe LeavesValid (elim r [
          | fault ↦ fault
          | invalid ↦ ok (bump F e Counter.num_packets_invalid, [])
          | ok (h, header_bytes) ↦ receive_payload F env e h header_bytes packet
        ])
    receive_regular_cases e packet fault v bytes s = s
    receive_regular_cases e packet invalid v bytes s =
        bump-IsValid F e Counter.num_packets_invalid v
    receive_regular_cases e packet (ok (h, n)) v bytes (lo, hi, seq) =
        receive_payload-Safe e h n packet v (rw seq (sequence_of-lt packet bytes))

    -- Whatever the bytes of a regular packet are, receiving it on a valid endpoint reads nothing
    -- outside of the packet, always finds the slots that it writes to, and leaves the endpoint
    -- valid.
    pub receive_regular-Safe :
        (e : Endpoint F) (packet : List ℕ)
        → IsValid F e
        → All IsByte packet
        → Safe LeavesValid (receive_regular F env e packet)
    unfolding receive_regular
    receive_regular-Safe e packet v bytes =
        receive_regular_cases (bump F e Counter.num_packets_received) packet
          (read_packet_header packet (length packet))
          (bump-IsValid F e Counter.num_packets_received v) bytes
          (read_packet_header-Safe packet (length packet) (omega arith))
