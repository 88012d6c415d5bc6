-- ===== src/Reliable/Endpoint/Receive.antt =====
-- reliable/reliable.c: `reliable_endpoint_receive_packet`.
use yojimbo_cmake.Common.{
  ℕ, zero, suc, ◌+◌, ◌-◌, ◌*◌, ◌/◌, ◌%◌, Bool, true, false, not, Option, none, some, List, [], ◌∷◌,
  ltb, ◌==◌, ◌&&◌, ◌||◌, if◌then◌else◌, length, take, drop, set, get_or, modify, replicate,
}
use yojimbo_cmake.Common.Results.{Result, ok, invalid, fault, ◌>>=◌}
use yojimbo_cmake.Reliable.SequenceBuffer.{
  SequenceBuffer, insert, insert_with_cleanup, advance, advance_with_cleanup, remove_with_cleanup,
  find, test_insert,
}
use yojimbo_cmake.Reliable.Sequence.{sub16}
use yojimbo_cmake.Reliable.Bytes.{read_uint8}
use yojimbo_cmake.Reliable.Header.{PacketHeader, max_packet_header_bytes, read_packet_header}
use yojimbo_cmake.Reliable.Fragment.{
  fragment_header_bytes, FragmentHeader, ReassemblyData, cleanup, read_fragment_header,
  store_fragment_data,
}
use yojimbo_cmake.Reliable.Floats.{Floats}
use yojimbo_cmake.Reliable.Endpoint.Counter
use yojimbo_cmake.Reliable.Endpoint.{
  Config, SentPacketData, ReceivedPacketData, Endpoint, Event, process, bump, zeroed_reassembly,
}

-- `process_packet_function`, by the sequence number and the payload, and the memory, not yet
-- written, of an allocation of some size.
pub record Environment : Type 0 where
  pub accepts : ℕ → List ℕ → Bool
  pub allocate : ℕ → List ℕ

module _ (F : Floats) where
  open F use {
    Float, Double, float, to_float, to_double, tiny, add_float, sub_float, mul_float, sub_double,
    fabs, float_less, float_equal, double_less,
  }

  -- The new `endpoint->rtt` when a packet sent at `sent_time` is acked.
  pub smoothed_rtt : Endpoint F → Double → Float
  smoothed_rtt e sent_time =
      let rtt = mul_float (to_float (sub_double e.time sent_time)) (float 1000) in
      if (float_equal e.rtt (float 0) && float_less (float 0) rtt)
        || double_less (fabs (to_double (sub_float e.rtt rtt))) tiny
      then rtt
      else add_float e.rtt (mul_float (sub_float rtt e.rtt) e.config.rtt_smoothing_factor)

  abbrev pub no_sent_packet : SentPacketData F
  no_sent_packet = record { time = F.double 0; acked = false; packet_bytes = 0 }

  -- The block for an ack whose sent packet is in slot `i`.
  unfoldable pub ack_slot : Endpoint F → ℕ → ℕ → Endpoint F
  ack_slot e ack_sequence i =
      let sent = get_or e.sent_packets.entry_data i no_sent_packet in
      if not sent.acked && ltb e.num_acks e.config.ack_buffer_size
      then bump F
          (record e {
            acks = set e.acks e.num_acks ack_sequence;
            num_acks = e.num_acks + 1;
            sent_packets = record (e.sent_packets) {
              entry_data = set e.sent_packets.entry_data i (record sent { acked = true });
            };
            rtt = smoothed_rtt e sent.time;
          })
          Counter.num_packets_acked
      else e

  -- One round of the loop over the ack bits.
  unfoldable pub ack_round : Endpoint F → ℕ → ℕ → Endpoint F
  ack_round e ack_sequence bits =
      if bits % 2 == 1
      then elim (find e.sent_packets ack_sequence) [ none ↦ e | some i ↦ ack_slot e ack_sequence i ]
      else e

  -- for ( i = 0; i < 32; ++i ), `rounds` rounds being left
  unfoldable pub ack_loop : ℕ → Endpoint F → ℕ → ℕ → ℕ → Endpoint F
  ack_loop zero e ack i bits = e
  ack_loop (suc rounds) e ack i bits =
      ack_loop rounds (ack_round e (sub16 ack i) bits) ack (i + 1) (bits / 2)

  module _ (env : Environment) where
    -- A packet that `process_packet_function` has accepted is noted, and its acks are taken.
    unfoldable pub accept_packet : Endpoint F → PacketHeader → ℕ → Result (Endpoint F)
    accept_packet e h packet_bytes =
        let (slot, received) = insert e.received_packets h.sequence in
        let reassembly = advance_with_cleanup e.fragment_reassembly h.sequence (some cleanup) in
        let entry : ReceivedPacketData F = record {
          time = e.time;
          packet_bytes = e.config.packet_header_size + packet_bytes;
        } in
        elim slot [
          | none ↦ fault
          | some i ↦
              let received' : SequenceBuffer (ReceivedPacketData F) = record received {
                entry_data = set received.entry_data i entry;
              } in
              ok (
                ack_loop 32
                  (record e { received_packets = received'; fragment_reassembly = reassembly })
                  h.ack 0 h.ack_bits)
        ]

    -- A regular packet whose header takes `header_bytes` bytes.
    unfoldable pub receive_payload :
        Endpoint F → PacketHeader → ℕ → List ℕ → Result (Endpoint F × List Event)
    receive_payload e h header_bytes packet_data =
        let payload = drop header_bytes packet_data in
        let accepted = accept_packet e h (length packet_data) in
        if ltb e.config.max_packet_size (length packet_data - header_bytes)
        then ok (bump F e Counter.num_packets_too_large_to_receive, [])
        else if not (test_insert e.received_packets h.sequence)
        then ok (bump F e Counter.num_packets_stale, [])
        else if env.accepts h.sequence payload
        then (do e' ← accepted; ok (e', process h.sequence payload ∷ []))
        else ok (e, process h.sequence payload ∷ [])

    unfoldable pub receive_regular : Endpoint F → List ℕ → Result (Endpoint F × List Event)
    receive_regular e packet_data =
        let e' : Endpoint F = bump F e Counter.num_packets_received in
        elim (read_packet_header packet_data (length packet_data)) [
          | fault ↦ fault
          | invalid ↦ ok (bump F e' Counter.num_packets_invalid, [])
          | ok (h, header_bytes) ↦ receive_payload e' h header_bytes packet_data
        ]

    -- The entry that a first fragment makes.
    unfoldable pub fresh_reassembly : ReassemblyData → Config F → FragmentHeader → ReassemblyData
    fresh_reassembly old config f = record old {
      sequence = f.sequence;
      ack = 0;
      ack_bits = 0;
      num_fragments_received = 0;
      num_fragments_total = f.num_fragments;
      packet_data =
          some (env.allocate (max_packet_header_bytes + f.num_fragments * config.fragment_size));
      packet_bytes = 0;
      fragment_received = replicate 256 0;
    }

    -- The slot of the packet that the fragment is part of, made if need be; `none` if the fragment
    -- is too old.
    unfoldable pub reassembly_slot : Endpoint F → FragmentHeader → Option ℕ × Endpoint F
    reassembly_slot e f =
        let (slot, b) = insert_with_cleanup e.fragment_reassembly f.sequence cleanup in
        elim (find e.fragment_reassembly f.sequence) [
          | some i ↦ (some i, e)
          | none ↦ elim slot [
            | none ↦ (none, e)
            | some i ↦ (
              some i,
              record e {
                received_packets = advance e.received_packets f.sequence;
                fragment_reassembly = record b {
                  entry_data = modify b.entry_data i (λ old. fresh_reassembly old e.config f);
                };
              },
            )
          ]
        ]

    abbrev pub with_reassembly : Endpoint F → ℕ → ReassemblyData → Endpoint F
    with_reassembly e i r = record e {
      fragment_reassembly = record (e.fragment_reassembly) {
        entry_data = set e.fragment_reassembly.entry_data i r;
      };
    }

    -- The packet as put together in the buffer of an entry.
    unfoldable pub reassembled : ReassemblyData → Result (List ℕ)
    reassembled r = elim r.packet_data [
      | none ↦ fault
      | some buffer ↦
          if ltb (length buffer) (max_packet_header_bytes + r.packet_bytes)
          then fault
          else ok (
              take (r.packet_header_bytes + r.packet_bytes)
                (drop (max_packet_header_bytes - r.packet_header_bytes) buffer))
    ]

    module _ (receive : Endpoint F → List ℕ → Result (Endpoint F × List Event)) where
      -- What follows the store of a fragment in the entry `r` of slot `i`. A packet that is complete
      -- is received by the call of the function that is passed in.
      unfoldable pub after_store :
          Endpoint F → ℕ → ℕ → ReassemblyData → Result (Endpoint F × List Event)
      after_store e sequence i r =
          let e' = with_reassembly e i r in
          let complete : Result (Endpoint F × List Event) = (do
            packet ← reassembled r
            (e'', events) ← receive e' packet
            let reassembly = remove_with_cleanup e''.fragment_reassembly sequence cleanup
            ok (
              bump F (record e'' { fragment_reassembly = reassembly })
                  Counter.num_fragments_received,
              events,
            )) in
          if r.num_fragments_received == r.num_fragments_total
          then complete
          else ok (bump F e' Counter.num_fragments_received, [])

      -- A fragment for the entry `r` of slot `i`.
      unfoldable pub add_fragment :
          Endpoint F
          → FragmentHeader
          → ℕ
          → ℕ
          → ReassemblyData
          → List ℕ
          → Result (Endpoint F × List Event)
      add_fragment e f header_bytes i r packet_data =
          let stored : Result ReassemblyData =
            store_fragment_data
              (record r {
                num_fragments_received = r.num_fragments_received + 1;
                fragment_received = set r.fragment_received f.fragment_id 1;
              })
              (record { sequence = f.sequence; ack = f.ack; ack_bits = f.ack_bits }) f.fragment_id
              e.config.fragment_size (drop header_bytes packet_data)
              (length packet_data - header_bytes) in
          if not (f.num_fragments == r.num_fragments_total)
          then ok (bump F e Counter.num_fragments_invalid, [])
          else if not (get_or r.fragment_received f.fragment_id 0 == 0)
          then ok (e, [])
          else (do r' ← stored; after_store e f.sequence i r')

      -- Once its slot was looked for.
      unfoldable pub receive_into :
          Endpoint F
          → FragmentHeader
          → ℕ
          → List ℕ
          → Option ℕ × Endpoint F
          → Result (Endpoint F × List Event)
      receive_into e f header_bytes packet_data (none, e') =
          ok (bump F e Counter.num_fragments_invalid, [])
      receive_into e f header_bytes packet_data (some i, e') =
          add_fragment e' f header_bytes i
            (get_or e'.fragment_reassembly.entry_data i (zeroed_reassembly F)) packet_data

      -- A fragment whose header was read or not.
      unfoldable pub receive_read :
          Endpoint F → List ℕ → Result (FragmentHeader × ℕ) → Result (Endpoint F × List Event)
      receive_read e packet_data fault = fault
      receive_read e packet_data invalid = ok (bump F e Counter.num_fragments_invalid, [])
      receive_read e packet_data (ok (f, header_bytes)) =
          receive_into e f header_bytes packet_data (reassembly_slot e f)

      unfoldable pub receive_fragment : Endpoint F → List ℕ → Result (Endpoint F × List Event)
      receive_fragment e packet_data = receive_read e packet_data (
          read_fragment_header packet_data (length packet_data) e.config.max_fragments
            e.config.fragment_size)

      -- The body of the function.
      unfoldable pub receive_once : Endpoint F → List ℕ → Result (Endpoint F × List Event)
      receive_once e packet_data =
          if ltb (e.config.max_packet_size + max_packet_header_bytes + fragment_header_bytes)
            (length packet_data)
          then ok (bump F e Counter.num_packets_too_large_to_receive, [])
          else (do
            (prefix_byte, _) ← read_uint8 packet_data
            if prefix_byte % 2 == 0
                then receive_regular e packet_data
                else receive_fragment e packet_data)

    -- `reliable_endpoint_receive_packet`, which calls itself on a packet that it has put together.
    -- The first argument bounds the depth of the calls.
    unfoldable pub receive_packet : ℕ → Endpoint F → List ℕ → Result (Endpoint F × List Event)
    receive_packet zero e packet_data = fault
    receive_packet (suc depth) e packet_data =
        receive_once (λ e p. receive_packet depth e p) e packet_data
