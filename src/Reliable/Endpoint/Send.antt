-- ===== src/Reliable/Endpoint/Send.antt =====
-- reliable/reliable.c: `reliable_endpoint_send_packet`.
use yojimbo_cmake.Common.{
  ℕ, zero, suc, ◌+◌, ◌/◌, ◌%◌, ◌^◌, false, none, some, List, [], ◌∷◌, ◌++◌, map, ltb, leb, ◌==◌,
  if◌then◌else◌, length, take, drop, set,
}
use yojimbo_cmake.Common.Results.{Result, ok, fault}
use yojimbo_cmake.Reliable.SequenceBuffer.{SequenceBuffer, insert, generate_ack_bits}
use yojimbo_cmake.Reliable.Sequence.{add16}
use yojimbo_cmake.Reliable.Header.{PacketHeader, write_packet_header}
use yojimbo_cmake.Reliable.Fragment.{write_fragment_header}
use yojimbo_cmake.Reliable.Floats.{Floats}
use yojimbo_cmake.Reliable.Endpoint.Counter
use yojimbo_cmake.Reliable.Endpoint.{Config, SentPacketData, Endpoint, Event, transmit, bump}

-- `num_fragments`. The size is not 0, which `reliable_endpoint_create` asserts: dividing by it
-- would be undefined in C.
unfoldable pub fragments_needed : ℕ → ℕ → ℕ
fragments_needed packet_bytes size =
    packet_bytes / size + (if packet_bytes % size == 0 then 0 else 1)

-- The loop over the fragments, `rounds` of which are left, from `fragment_id` on; `q` is what is
-- left of the packet. Each fragment is a buffer handed to `transmit_packet_function`.
unfoldable pub fragments : ℕ → ℕ → ℕ → ℕ → List ℕ → ℕ → List ℕ → List (List ℕ)
fragments zero sequence num_fragments size header fragment_id q = []
fragments (suc rounds) sequence num_fragments size header fragment_id q =
    (write_fragment_header sequence fragment_id num_fragments
      ++ ((if fragment_id == 0 then header else []) ++ take size q))
    ∷ fragments rounds sequence num_fragments size header (fragment_id + 1) (drop size q)

module _ (F : Floats) where
  -- The counter is incremented once for each fragment.
  unfoldable pub bump_fragments : ℕ → Endpoint F → Endpoint F
  bump_fragments zero e = e
  bump_fragments (suc n) e = bump_fragments n (bump F e Counter.num_fragments_sent)

  -- What is transmitted, for the sequence number and acks of the header.
  unfoldable pub packets_of : Config F → PacketHeader → List ℕ → List (List ℕ)
  packets_of config h packet_data =
      if leb (length packet_data) config.fragment_above
      then (write_packet_header h ++ packet_data) ∷ []
      else (let n = fragments_needed (length packet_data) config.fragment_size in
          fragments n h.sequence n config.fragment_size (write_packet_header h) 0 packet_data)

  -- The entry in `sent_packets`; `packet_bytes` is a field of 31 bits.
  abbrev pub sent_entry : Endpoint F → ℕ → SentPacketData F
  sent_entry e packet_bytes = record {
    time = e.time;
    acked = false;
    packet_bytes = (e.config.packet_header_size + packet_bytes) % 2 ^ 31;
  }

  -- The function behind its check on the size. The sequence number is taken, the acks are read off
  -- the received packets, and the packet is noted as sent before it is transmitted.
  unfoldable pub send_sequenced : Endpoint F → List ℕ → Result (Endpoint F × List Event)
  send_sequenced e packet_data =
      let sequence = e.sequence in
      let (ack, ack_bits) = generate_ack_bits e.received_packets in
      let (slot, sent) = insert e.sent_packets sequence in
      let h : PacketHeader = record { sequence = sequence; ack = ack; ack_bits = ack_bits } in
      let packets = packets_of e.config h packet_data in
      elim slot [
        | none ↦ fault
        | some i ↦
            let sent' : SequenceBuffer (SentPacketData F) = record sent {
              entry_data = set sent.entry_data i (sent_entry e (length packet_data));
            } in
            let e' : Endpoint F = record e { sequence = add16 sequence 1; sent_packets = sent' } in
            let e'' : Endpoint F =
              if leb (length packet_data) e.config.fragment_above
              then e'
              else bump_fragments (length packets) e' in
            ok (bump F e'' Counter.num_packets_sent, map (transmit sequence) packets)
      ]

  unfoldable pub send_packet : Endpoint F → List ℕ → Result (Endpoint F × List Event)
  send_packet e packet_data =
      if ltb e.config.max_packet_size (length packet_data)
      then ok (bump F e Counter.num_packets_too_large_to_send, [])
      else send_sequenced e packet_data
