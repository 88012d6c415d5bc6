-- ===== src/Reliable/Endpoint/Assembling.antt =====
-- reliable/reliable.c: receiving, and the entries in which packets are put together.
use yojimbo_cmake.Common.{
  ℕ, zero, suc, ◌+◌, ◌-◌, ◌%◌, ◌/◌, ◌<◌, ◌≤◌, Bool-cases, not, inl, inr, Option, none, some,
  Option-cases, List, ltb, ◌==◌, ==_iff, ◌&&◌, length, get_or, replicate, drop, set-keeps, arith,
}
use yojimbo_cmake.Common.Results.{
  Result, ok, invalid, fault, Returns, Returns-bind, Returns-then, Returns-if, Result-cases,
}
use yojimbo_cmake.Reliable.Sequence.{sub16}
use yojimbo_cmake.Reliable.SequenceBuffer.{insert, find, create, test_insert}
use yojimbo_cmake.Reliable.SequenceBuffer.Entries.{
  advance_with_cleanup-Each, remove_with_cleanup-Each,
}
use yojimbo_cmake.Reliable.Bytes.{read_uint8}
use yojimbo_cmake.Reliable.Header.{PacketHeader, read_packet_header}
use yojimbo_cmake.Reliable.Fragment.{FragmentHeader, ReassemblyData, cleanup, read_fragment_header}
use yojimbo_cmake.Reliable.Fragment.Assembly.{
  IsAssembling, cleanup-IsAssembling, read_fragment_header-Returns,
}
use yojimbo_cmake.Reliable.Fragment.Assembly.Storing.{store-IsAssembling}
use yojimbo_cmake.Reliable.Floats.{Floats}
use yojimbo_cmake.Reliable.Endpoint
use yojimbo_cmake.Reliable.Endpoint.{Config, Endpoint, Event, zeroed_reassembly}
use yojimbo_cmake.Reliable.Endpoint.Receive.{
  Environment, no_sent_packet, ack_slot, ack_round, ack_loop, accept_packet, receive_payload,
  receive_regular, reassembly_slot, with_reassembly, reassembled, after_store, add_fragment,
  receive_into, receive_read, receive_fragment, receive_once, receive_packet,
}
use yojimbo_cmake.Reliable.Endpoint.Depth.{
  Assembles, zeroed-IsAssembling, reassembly_slot-Assembles,
}

module _ (F : Floats) (env : Environment) where
  abbrev FirstAssembles : Endpoint F × List Event → Type 0
  FirstAssembles r = Assembles F env r.0

  -- The entries of a new endpoint are in order, with at most 256 fragments to a packet.
  pub create-Assembles :
      (config : Config F) (time : F.Double)
      → config.max_fragments ≤ 256
      → Assembles F env (Endpoint.create F config time)
  unfolding Endpoint.create create
  create-Assembles config time few = record {
    few = few;
    entries = zeroed_at config.fragment_reassembly_buffer_size;
  }
    where
      zeroed_at :
          (n i : ℕ)
          → IsAssembling (get_or (replicate n (zeroed_reassembly F)) i (zeroed_reassembly F))
      zeroed_at zero i = zeroed-IsAssembling F env
      zeroed_at (suc n) zero = zeroed-IsAssembling F env
      zeroed_at (suc n) (suc i) = zeroed_at n i

  ack_slot-Assembles :
      (e : Endpoint F) (ack i : ℕ) → Assembles F env e → Assembles F env (ack_slot F e ack i)
  unfolding ack_slot
  ack_slot-Assembles e ack i v =
      elim (Bool-cases (
        not (get_or e.sent_packets.entry_data i (no_sent_packet F)).acked
        && ltb e.num_acks e.config.ack_buffer_size)) [
          | inl t ↦ rw t (record { few = v.few; entries = v.entries })
          | inr f ↦ rw f v
        ]

  ack_round-Assembles :
      (e : Endpoint F) (ack bits : ℕ) → Assembles F env e → Assembles F env (ack_round F e ack bits)
  unfolding ack_round
  ack_round-Assembles e ack bits v = elim (Bool-cases (bits % 2 == 1)) [
    | inr f ↦ rw f v
    | inl t ↦ elim (Option-cases (find e.sent_packets ack)) [
      | inl n ↦ rw (t, n) v
      | inr (i, n) ↦ rw (t, n) (ack_slot-Assembles e ack i v)
    ]
  ]

  ack_loop-Assembles :
      (rounds : ℕ) (e : Endpoint F) (ack i bits : ℕ)
      → Assembles F env e
      → Assembles F env (ack_loop F rounds e ack i bits)
  unfolding ack_loop
  ack_loop-Assembles zero e ack i bits v = v
  ack_loop-Assembles (suc rounds) e ack i bits v =
      ack_loop-Assembles rounds (ack_round F e (sub16 ack i) bits) ack (i + 1) (bits / 2)
        (ack_round-Assembles e (sub16 ack i) bits v)

  accept_packet-Assembles :
      (e : Endpoint F) (h : PacketHeader) (n : ℕ)
      → Assembles F env e
      → Returns (Assembles F env) (accept_packet F env e h n)
  unfolding accept_packet
  accept_packet-Assembles e h n v = elim (Option-cases (insert e.received_packets h.sequence).0) [
    | inl full ↦ rw (full, Returns) tt
    | inr (i, free) ↦
        rw (free, Returns)
          (ack_loop-Assembles 32 _ h.ack 0 h.ack_bits (record {
            few = v.few;
            entries =
                advance_with_cleanup-Each IsAssembling (zeroed_reassembly F) cleanup
                  cleanup-IsAssembling e.fragment_reassembly h.sequence v.entries;
          }))
  ]

  receive_payload-Assembles :
      (e : Endpoint F) (h : PacketHeader) (header_bytes : ℕ) (packet_data : List ℕ)
      → Assembles F env e
      → Returns FirstAssembles (receive_payload F env e h header_bytes packet_data)
  unfolding receive_payload
  receive_payload-Assembles e h header_bytes packet_data v =
      Returns-if FirstAssembles (ltb e.config.max_packet_size (length packet_data - header_bytes)) _
        _ (λ t. record { few = v.few; entries = v.entries })
        (Returns-if FirstAssembles (not (test_insert e.received_packets h.sequence)) _ _
          (λ t. record { few = v.few; entries = v.entries })
          (Returns-if FirstAssembles (env.accepts h.sequence (drop header_bytes packet_data)) _ _
            (λ t.
              Returns-then (Assembles F env) FirstAssembles
                (accept_packet F env e h (length packet_data)) _
                (accept_packet-Assembles e h (length packet_data) v) (λ e' v'. v'))
            v))

  read_regular-Assembles :
      (e : Endpoint F) (packet_data : List ℕ)
      → Assembles F env e
      → Returns FirstAssembles (receive_regular F env e packet_data)
  unfolding receive_regular
  read_regular-Assembles e packet_data v =
      elim (Result-cases (read_packet_header packet_data (length packet_data))) [
        | inl f ↦ rw (f, Returns) tt
        | inr (inl f) ↦ rw (f, Returns) (record { few = v.few; entries = v.entries })
        | inr (inr ((h, n), f)) ↦
            rw (f, Returns)
              (receive_payload-Assembles _ h n packet_data
                (record { few = v.few; entries = v.entries }))
      ]

  module _ (receive : Endpoint F → List ℕ → Result (Endpoint F × List Event))
      (keeps : (e : Endpoint F) (p : List ℕ)
        → Assembles F env e
        → Returns FirstAssembles (receive e p)) where
    after_store-Assembles :
        (e : Endpoint F) (sequence i : ℕ) (r : ReassemblyData)
        → Assembles F env e
        → IsAssembling r
        → Returns FirstAssembles (after_store F env receive e sequence i r)
    unfolding after_store
    after_store-Assembles e sequence i r v w =
        Returns-if FirstAssembles (r.num_fragments_received == r.num_fragments_total) _ _
          (λ t. Returns-bind FirstAssembles (reassembled F env r) _ λ packet.
            Returns-then FirstAssembles FirstAssembles
              (receive (with_reassembly F env e i r) packet) _
              (keeps (with_reassembly F env e i r) packet stored)
              λ (e', events) v'. record {
                few = v'.few;
                entries =
                    remove_with_cleanup-Each IsAssembling (zeroed_reassembly F) cleanup
                      cleanup-IsAssembling e'.fragment_reassembly sequence v'.entries;
              })
          (record { few = v.few; entries = stored.entries })
      where
        stored : Assembles F env (with_reassembly F env e i r)
        stored = record {
          few = v.few;
          entries = λ j.
              set-keeps IsAssembling e.fragment_reassembly.entry_data i j r (zeroed_reassembly F) w
                (v.entries j);
        }

    add_fragment-Assembles :
        (e : Endpoint F) (f : FragmentHeader) (header_bytes i : ℕ) (r : ReassemblyData)
        (packet_data : List ℕ)
        → Assembles F env e
        → IsAssembling r
        → f.fragment_id < f.num_fragments
        → f.num_fragments ≤ 256
        → Returns FirstAssembles (add_fragment F env receive e f header_bytes i r packet_data)
    unfolding add_fragment
    add_fragment-Assembles e f header_bytes i r packet_data v w below few =
        elim (Bool-cases (f.num_fragments == r.num_fragments_total)) [
          | inr n ↦ rw (n, Returns) (record { few = v.few; entries = v.entries })
          | inl t ↦ elim (Bool-cases (get_or r.fragment_received f.fragment_id 0 == 0)) [
            | inr n ↦ rw (t, n, Returns) v
            | inl z ↦
                rw (t, z)
                  (Returns-then (λ r'. IsAssembling r' × (1 ≤ r'.num_fragments_received))
                    FirstAssembles _ _
                    (store-IsAssembling r
                      (record { sequence = f.sequence; ack = f.ack; ack_bits = f.ack_bits })
                      f.fragment_id e.config.fragment_size (drop header_bytes packet_data)
                      (length packet_data - header_bytes) w
                      (omega (arith, (==_iff f.num_fragments r.num_fragments_total).0 t))
                      (omega arith) ((==_iff (get_or r.fragment_received f.fragment_id 0) 0).0 z))
                    λ r' (w', lo). after_store-Assembles e f.sequence i r' v w')
          ]
        ]

    receive_into-Assembles :
        (e : Endpoint F) (f : FragmentHeader) (header_bytes : ℕ) (packet_data : List ℕ)
        (x : Option ℕ × Endpoint F)
        → Assembles F env e
        → Assembles F env x.1
        → f.fragment_id < f.num_fragments
        → f.num_fragments ≤ 256
        → Returns FirstAssembles (receive_into F env receive e f header_bytes packet_data x)
    unfolding receive_into
    receive_into-Assembles e f header_bytes packet_data (none, e') v v' below few = record {
      few = v.few;
      entries = v.entries;
    }
    receive_into-Assembles e f header_bytes packet_data (some i, e') v v' below few =
        add_fragment-Assembles e' f header_bytes i _ packet_data v' (v'.entries i) below few

    receive_read-Assembles :
        (e : Endpoint F) (packet_data : List ℕ) (r : Result (FragmentHeader × ℕ))
        → Assembles F env e
        → Returns
            (λ x.
              (x.0.fragment_id < x.0.num_fragments) × (x.0.num_fragments ≤ e.config.max_fragments))
            r
        → Returns FirstAssembles (receive_read F env receive e packet_data r)
    unfolding receive_read
    receive_read-Assembles e packet_data fault v h = tt
    receive_read-Assembles e packet_data invalid v h = record { few = v.few; entries = v.entries }
    receive_read-Assembles e packet_data (ok (f, header_bytes)) v (below, few) =
        receive_into-Assembles e f header_bytes packet_data (reassembly_slot F env e f) v
          (reassembly_slot-Assembles F env e f v) below (omega (arith, v.few, few))

    receive_once-Assembles :
        (e : Endpoint F) (packet_data : List ℕ)
        → Assembles F env e
        → Returns FirstAssembles (receive_once F env receive e packet_data)
    unfolding receive_once receive_fragment
    receive_once-Assembles e packet_data v =
        Returns-if FirstAssembles (ltb (e.config.max_packet_size + 9 + 5) (length packet_data)) _ _
          (λ t. record { few = v.few; entries = v.entries })
          (Returns-bind FirstAssembles (read_uint8 packet_data) _ λ (b, rest).
            Returns-if FirstAssembles (b % 2 == 0) _ _ (λ t. read_regular-Assembles e packet_data v)
              (receive_read-Assembles e packet_data
                (read_fragment_header packet_data (length packet_data) e.config.max_fragments
                  e.config.fragment_size)
                v
                (read_fragment_header-Returns packet_data (length packet_data)
                  e.config.max_fragments e.config.fragment_size)))

  -- Receiving any packet keeps the entries in order in which packets are put together: the count of
  -- each is that of the fragments noted, which are fragments of its packet, and when the first is
  -- noted all the bytes that are written for some packet header stand in front of the payload in
  -- its buffer, as many as the entry says.
  pub receive_packet-Assembles :
      (depth : ℕ) (e : Endpoint F) (packet_data : List ℕ)
      → Assembles F env e
      → Returns (λ r. Assembles F env r.0) (receive_packet F env depth e packet_data)
  unfolding receive_packet
  receive_packet-Assembles zero e packet_data v = tt
  receive_packet-Assembles (suc depth) e packet_data v =
      receive_once-Assembles (λ e p. receive_packet F env depth e p)
        (λ e p w. receive_packet-Assembles depth e p w) e packet_data v
