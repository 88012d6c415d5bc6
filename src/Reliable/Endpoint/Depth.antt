-- ===== src/Reliable/Endpoint/Depth.antt =====
-- reliable/reliable.c: how deep `reliable_endpoint_receive_packet` calls itself, on a packet that was
-- put together of fragments.
use yojimbo_cmake.Common.{
  ℕ, zero, suc, ◌+◌, ◌-◌, ◌%◌, ◌<◌, ◌≤◌, ◌≡◌, refl, Bool-cases, inl, inr, Option, none, some,
  Option-cases, List, ltb, ltb→le, ◌==◌, ==_iff, if◌then◌else◌, length, get_or, replicate, take,
  drop, modify-keeps, arith,
}
use yojimbo_cmake.Common.Results.{Result, ok, invalid, fault, Returns, bind_ext}
use yojimbo_cmake.Reliable.SequenceBuffer.{find, insert_with_cleanup}
use yojimbo_cmake.Reliable.SequenceBuffer.Entries.{insert_with_cleanup-Each}
use yojimbo_cmake.Reliable.Bytes.{read_uint8}
use yojimbo_cmake.Reliable.Fragment.{FragmentHeader, ReassemblyData, cleanup, read_fragment_header}
use yojimbo_cmake.Reliable.Fragment.Assembly.{
  IsAssembling, HoldsHeader, cleanup-IsAssembling, complete-HoldsHeader,
  read_fragment_header-Returns, IsRegular, header-IsRegular,
}
use yojimbo_cmake.Reliable.Fragment.Assembly.Storing.{store-IsAssembling}
use yojimbo_cmake.Reliable.Floats.{Floats}
use yojimbo_cmake.Reliable.Endpoint.{Config, Endpoint, Event, zeroed_reassembly}
use yojimbo_cmake.Reliable.Endpoint.Receive.{
  Environment, fresh_reassembly, reassembly_slot, with_reassembly, reassembled, after_store,
  add_fragment, receive_into, receive_read, receive_fragment, receive_once, receive_packet,
}

module _ (F : Floats) (env : Environment) where
  -- All entries in which packets are put together are in order, and packets have at most 256
  -- fragments.
  pub record Assembles (e : Endpoint F) : Type 0 where
    pub few : e.config.max_fragments ≤ 256
    pub entries :
        (i : ℕ) → IsAssembling (get_or e.fragment_reassembly.entry_data i (zeroed_reassembly F))

  -- Two functions that do the same with regular packets.
  abbrev Agree :
      (Endpoint F → List ℕ → Result (Endpoint F × List Event))
      → (Endpoint F → List ℕ → Result (Endpoint F × List Event))
      → Type 0
  Agree receive receive' = (e : Endpoint F) (p : List ℕ) → IsRegular p → receive e p ≡ receive' e p

  reassembled-IsRegular :
      (r : ReassemblyData)
      → HoldsHeader r.packet_header_bytes r.packet_data
      → Returns IsRegular (reassembled F env r)
  unfolding reassembled
  reassembled-IsRegular r h = from_buffer r.packet_data r.packet_header_bytes r.packet_bytes h
    where
      from_buffer :
          (o : Option (List ℕ)) (m n : ℕ)
          → HoldsHeader m o
          → Returns IsRegular (elim o [
            | none ↦ fault
            | some buffer ↦
                if ltb (length buffer) (9 + n)
                then fault
                else ok (take (m + n) (drop (9 - m) buffer))
          ])
      from_buffer none m n h = tt
      from_buffer (some buffer) m n h = elim (Bool-cases (ltb (length buffer) (9 + n))) [
        | inl e ↦ rw e tt
        | inr e ↦ rw e (header-IsRegular buffer m n h (ltb→le (length buffer) (9 + n) e))
      ]

  zeros : (n i : ℕ) → Path ℕ (get_or (replicate n 0) i 0) 0
  zeros zero i = refl
  zeros (suc n) zero = refl
  zeros (suc n) (suc i) = zeros n i

  pub zeroed-IsAssembling : IsAssembling (zeroed_reassembly F)
  zeroed-IsAssembling = record {
    size = refl;
    counted = refl;
    inside = λ i h. zeros 256 i;
    headed = λ ne. absurd (ne refl);
  }

  fresh-IsAssembling :
      (old : ReassemblyData) (config : Config F) (f : FragmentHeader)
      → IsAssembling (fresh_reassembly F env old config f)
  unfolding fresh_reassembly
  fresh-IsAssembling old config f = record {
    size = refl;
    counted = refl;
    inside = λ i h. zeros 256 i;
    headed = λ ne. absurd (ne refl);
  }

  cleaned-Each :
      (e : Endpoint F) (sequence : ℕ)
      → Assembles e
      → (i : ℕ)
      → IsAssembling (
          get_or
            (insert_with_cleanup e.fragment_reassembly sequence cleanup).1.entry_data
            i
            (zeroed_reassembly F))
  cleaned-Each e sequence v =
      insert_with_cleanup-Each IsAssembling (zeroed_reassembly F) cleanup cleanup-IsAssembling
        e.fragment_reassembly sequence v.entries

  -- Whatever slot is found or made for a fragment, all entries stay in order.
  pub reassembly_slot-Assembles :
      (e : Endpoint F) (f : FragmentHeader) → Assembles e → Assembles (reassembly_slot F env e f).1
  unfolding reassembly_slot
  reassembly_slot-Assembles e f v = elim (Option-cases (find e.fragment_reassembly f.sequence)) [
    | inr (i, found) ↦ rw (found, reassembly_slot) v
    | inl missing ↦
        elim (Option-cases (insert_with_cleanup e.fragment_reassembly f.sequence cleanup).0) [
          | inl none_free ↦ rw (missing, none_free, reassembly_slot) v
          | inr (i, free) ↦
              rw (missing, free, reassembly_slot)
                (record {
                  few = v.few;
                  entries = λ j.
                      modify-keeps IsAssembling
                        (insert_with_cleanup e.fragment_reassembly f.sequence cleanup).1.entry_data
                        i j (λ old. fresh_reassembly F env old e.config f) (zeroed_reassembly F)
                        (λ old h. fresh-IsAssembling old e.config f)
                        (cleaned-Each e f.sequence v j);
                })
        ]
  ]

  module _ (receive receive' : Endpoint F → List ℕ → Result (Endpoint F × List Event))
      (agree : Agree receive receive') where
    after_store-Agree :
        (e : Endpoint F) (sequence i : ℕ) (r : ReassemblyData)
        → IsAssembling r
        → 1 ≤ r.num_fragments_received
        → after_store F env receive e sequence i r ≡ after_store F env receive' e sequence i r
    unfolding after_store
    after_store-Agree e sequence i r v lo =
        elim (Bool-cases (r.num_fragments_received == r.num_fragments_total)) [
          | inr f ↦ rw f refl
          | inl t ↦ rw t (
              bind_ext IsRegular (reassembled F env r) _ _
                (reassembled-IsRegular r (
                  complete-HoldsHeader r v lo
                    ((==_iff r.num_fragments_received r.num_fragments_total).0 t)))
                λ packet regular. rw (agree (with_reassembly F env e i r) packet regular) refl)
        ]

    add_fragment-Agree :
        (e : Endpoint F) (f : FragmentHeader) (header_bytes i : ℕ) (r : ReassemblyData)
        (packet_data : List ℕ)
        → IsAssembling r
        → f.fragment_id < f.num_fragments
        → f.num_fragments ≤ 256
        → add_fragment F env receive e f header_bytes i r packet_data
          ≡ add_fragment F env receive' e f header_bytes i r packet_data
    unfolding add_fragment
    add_fragment-Agree e f header_bytes i r packet_data v below few =
        elim (Bool-cases (f.num_fragments == r.num_fragments_total)) [
          | inr n ↦ rw n refl
          | inl t ↦ elim (Bool-cases (get_or r.fragment_received f.fragment_id 0 == 0)) [
            | inr n ↦ rw (t, n) refl
            | inl z ↦
                rw (t, z)
                  (bind_ext (λ r'. IsAssembling r' × (1 ≤ r'.num_fragments_received)) _ _ _
                    (store-IsAssembling r
                      (record { sequence = f.sequence; ack = f.ack; ack_bits = f.ack_bits })
                      f.fragment_id e.config.fragment_size (drop header_bytes packet_data)
                      (length packet_data - header_bytes) v
                      (omega (arith, (==_iff f.num_fragments r.num_fragments_total).0 t))
                      (omega arith) ((==_iff (get_or r.fragment_received f.fragment_id 0) 0).0 z))
                    λ r' (v', lo). after_store-Agree e f.sequence i r' v' lo)
          ]
        ]

    receive_into-Agree :
        (e : Endpoint F) (f : FragmentHeader) (header_bytes : ℕ) (packet_data : List ℕ)
        (x : Option ℕ × Endpoint F)
        → Assembles x.1
        → f.fragment_id < f.num_fragments
        → f.num_fragments ≤ 256
        → receive_into F env receive e f header_bytes packet_data x
          ≡ receive_into F env receive' e f header_bytes packet_data x
    unfolding receive_into
    receive_into-Agree e f header_bytes packet_data (none, e') v below few = refl
    receive_into-Agree e f header_bytes packet_data (some i, e') v below few =
        add_fragment-Agree e' f header_bytes i _ packet_data (v.entries i) below few

    receive_read-Agree :
        (e : Endpoint F) (packet_data : List ℕ) (r : Result (FragmentHeader × ℕ))
        → Assembles e
        → Returns
            (λ x.
              (x.0.fragment_id < x.0.num_fragments) × (x.0.num_fragments ≤ e.config.max_fragments))
            r
        → receive_read F env receive e packet_data r ≡ receive_read F env receive' e packet_data r
    unfolding receive_read
    receive_read-Agree e packet_data fault v h = refl
    receive_read-Agree e packet_data invalid v h = refl
    receive_read-Agree e packet_data (ok (f, header_bytes)) v (below, few) =
        receive_into-Agree e f header_bytes packet_data (reassembly_slot F env e f)
          (reassembly_slot-Assembles e f v) below (omega (arith, v.few, few))

    receive_once-Agree :
        (e : Endpoint F) (packet_data : List ℕ)
        → Assembles e
        → receive_once F env receive e packet_data ≡ receive_once F env receive' e packet_data
    unfolding receive_once receive_fragment
    receive_once-Agree e packet_data v =
        rw
          (receive_read-Agree e packet_data
            (read_fragment_header packet_data (length packet_data) e.config.max_fragments
              e.config.fragment_size)
            v
            (read_fragment_header-Returns packet_data (length packet_data) e.config.max_fragments
              e.config.fragment_size))
          refl

  -- A regular packet is received without a call of the function itself.
  regular-Agree :
      (receive receive' : Endpoint F → List ℕ → Result (Endpoint F × List Event))
      → Agree (receive_once F env receive) (receive_once F env receive')
  unfolding receive_once read_uint8
  regular-Agree receive receive' e p (b, rest, is, even) = rw (is, (==_iff (b % 2) 0).1 even) refl

  -- On an endpoint whose entries are in order, two calls of the function, one inside the other, are
  -- enough for every packet: the result is the same with every bound on the depth of the calls that
  -- allows as many.
  pub receive_packet_depth :
      (depth : ℕ) (e : Endpoint F) (packet_data : List ℕ)
      → Assembles e
      → receive_packet F env (suc (suc depth)) e packet_data ≡ receive_packet F env 2 e packet_data
  unfolding receive_packet
  receive_packet_depth depth e packet_data v =
      receive_once-Agree _ _
        (regular-Agree (λ e p. receive_packet F env depth e p) (λ e p. receive_packet F env 0 e p))
        e packet_data v
