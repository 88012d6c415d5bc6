-- ===== src/Reliable/Endpoint/Sending.antt =====
-- `reliable_endpoint_send_packet` on a valid endpoint.
use yojimbo_cmake.Common.{
  ℕ, zero, suc, ◌≤◌, ◌≡◌, refl, sym, ◌∙◌, ap, subst, Bool, true, false, some, List, map, leb,
  le→ltb, if◌then◌else◌, length, set, length-set,
}
use yojimbo_cmake.Common.Results.{ok}
use yojimbo_cmake.Reliable.Sequence.{add16}
use yojimbo_cmake.Reliable.SequenceBuffer
use yojimbo_cmake.Reliable.SequenceBuffer.{
  SequenceBuffer, insert, advance, claim_slot, generate_ack_bits,
}
use yojimbo_cmake.Reliable.SequenceBuffer.Preserved.{with_data-IsValid}
use yojimbo_cmake.Reliable.SequenceBuffer.Members.{Holds, insert-Next, Next}
use yojimbo_cmake.Reliable.Header.{PacketHeader}
use yojimbo_cmake.Reliable.Floats.{Floats}
use yojimbo_cmake.Reliable.Endpoint.Counter
use yojimbo_cmake.Reliable.Endpoint.{Endpoint, transmit, bump}
use yojimbo_cmake.Reliable.Endpoint.Valid.{IsValid, bump-IsValid}
use yojimbo_cmake.Reliable.Endpoint.Send.{
  packets_of, bump_fragments, sent_entry, send_sequenced, send_packet,
}

module _ (F : Floats) where
  bump_fragments-IsValid : (n : ℕ) (e : Endpoint F) → IsValid F e → IsValid F (bump_fragments F n e)
  unfolding bump_fragments
  bump_fragments-IsValid zero e v = v
  bump_fragments-IsValid (suc n) e v =
      bump_fragments-IsValid n (bump F e Counter.num_fragments_sent) (bump-IsValid F e _ v)

  bump_fragments-SameSent :
      (n : ℕ) (e : Endpoint F)
      → ((bump_fragments F n e).sent_packets ≡ e.sent_packets)
        × ((bump_fragments F n e).sequence ≡ e.sequence)
  unfolding bump_fragments
  bump_fragments-SameSent zero e = (refl, refl)
  bump_fragments-SameSent (suc n) e =
      bump_fragments-SameSent n (bump F e Counter.num_fragments_sent)

  -- The endpoint when the packet is noted as sent, before it is transmitted.
  record Sent (e : Endpoint F) (e' : Endpoint F) : Type 0 where
    valid : IsValid F e'
    moved : e'.sequence ≡ add16 e.sequence 1
    held : Holds e'.sent_packets e.sequence

  transmitted : Bool → ℕ → Endpoint F → Endpoint F
  transmitted c n e = bump F (if c then e else bump_fragments F n e) Counter.num_packets_sent

  transmitted-Sent :
      (c : Bool) (n : ℕ) (e e' : Endpoint F) → Sent e e' → Sent e (transmitted c n e')
  unfolding transmitted
  transmitted-Sent true n e e' s = record {
    valid = bump-IsValid F e' _ s.valid;
    moved = s.moved;
    held = s.held;
  }
  transmitted-Sent false n e e' s =
      let (sent, seq) = bump_fragments-SameSent n e' in
      record {
        valid = bump-IsValid F _ _ (bump_fragments-IsValid n e' s.valid);
        moved = seq ∙ s.moved;
        held = subst (λ b. Holds b e.sequence) (sym sent) s.held;
      }

  -- The endpoint with the packet noted in slot `i`.
  noted : Endpoint F → ℕ → ℕ → Endpoint F
  noted e i packet_bytes =
      let sent = (insert e.sent_packets e.sequence).1 in
      record e {
        sequence = add16 e.sequence 1;
        sent_packets = record sent {
          entry_data = set sent.entry_data i (sent_entry F e packet_bytes);
        };
      }

  -- The header of the next packet: its sequence number, and the acks of the packets received.
  pub next_header : Endpoint F → PacketHeader
  next_header e = record {
    sequence = e.sequence;
    ack = (generate_ack_bits e.received_packets).0;
    ack_bits = (generate_ack_bits e.received_packets).1;
  }

  noted-Sent :
      (e : Endpoint F) (i n : ℕ)
      → IsValid F e
      → Next e.sent_packets (insert e.sent_packets e.sequence).1
      → Sent e (noted e i n)
  unfolding noted SequenceBuffer.exists
  noted-Sent e i n v s = record {
    valid = record {
      sent =
          with_data-IsValid (insert e.sent_packets e.sequence).1 _ s.valid
            (length-set (insert e.sent_packets e.sequence).1.entry_data i (sent_entry F e n));
      sent_small = rw s.same_entries v.sent_small;
      received = v.received;
      reassembly = v.reassembly;
      in_step = s.moved ∙ ap (λ q. add16 q 1) v.in_step;
      acks_fit = v.acks_fit;
      acks_size = v.acks_size;
    };
    moved = refl;
    held = subst (λ q. Holds (insert e.sent_packets e.sequence).1 q) v.in_step s.held;
  }

  Next-sent :
      (e : Endpoint F)
      → IsValid F e
      → (i : ℕ) × (insert e.sent_packets e.sequence
          ≡ (some i, (insert e.sent_packets e.sequence).1))
        × Next e.sent_packets (insert e.sent_packets e.sequence).1
  Next-sent e v =
      subst
        (λ q.
          (i : ℕ) × (insert e.sent_packets q ≡ (some i, (insert e.sent_packets q).1))
          × Next e.sent_packets (insert e.sent_packets q).1)
        v.in_step (insert-Next e.sent_packets v.sent v.sent_small)

  -- A packet of acceptable size is sent: the slot for it is there, it goes out as `packets_of`
  -- says, and the endpoint afterwards is valid, has moved on by one number and holds the packet
  -- as sent.
  pub send_packet_lem :
      (e : Endpoint F) (packet_data : List ℕ)
      → IsValid F e
      → length packet_data ≤ e.config.max_packet_size
      → (e' : Endpoint F) × (send_packet F e packet_data
          ≡ ok (e', map (transmit e.sequence) (packets_of F e.config (next_header e) packet_data)))
        × IsValid F e'
        × (e'.sequence ≡ add16 e.sequence 1)
        × Holds e'.sent_packets e.sequence
  unfolding send_packet send_sequenced next_header transmitted noted
  send_packet_lem e packet_data v fits =
      let (i, eq, next) = Next-sent e v in
      let count = length (packets_of F e.config (next_header e) packet_data) in
      let small = leb (length packet_data) e.config.fragment_above in
      let s = transmitted-Sent small count e _ (noted-Sent e i (length packet_data) v next) in
      (
        transmitted small count (noted e i (length packet_data)),
        rw
            (
              le→ltb e.config.max_packet_size (length packet_data) fits,
              ap (λ r. r.0) eq,
              send_sequenced,
            )
            refl,
        s.valid,
        s.moved,
        s.held,
      )
