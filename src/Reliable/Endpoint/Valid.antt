-- ===== src/Reliable/Endpoint/Valid.antt =====
-- What holds of every endpoint between two calls of its functions.
use yojimbo_cmake.Common.{
  ℕ, zero, suc, ◌+◌, ◌*◌, ◌<◌, ◌≤◌, ◌≡◌, refl, inl, inr, Option-cases, length, length-replicate,
  length-modify, arith,
}
use yojimbo_cmake.Reliable.SequenceBuffer
use yojimbo_cmake.Reliable.SequenceBuffer.{SequenceBuffer}
use yojimbo_cmake.Reliable.SequenceBuffer.Window
use yojimbo_cmake.Reliable.SequenceBuffer.Preserved.{
  create-IsValid, reset-IsValid, with_data-IsValid,
}
use yojimbo_cmake.Reliable.Fragment.{ReassemblyData, cleanup}
use yojimbo_cmake.Reliable.Floats.{Floats}
use yojimbo_cmake.Reliable.Endpoint
use yojimbo_cmake.Reliable.Endpoint.{Config, Endpoint, bump, free_slots, clear_acks}

-- A buffer size that the sequence buffers work with: it divides 65536, and is not 1 or 65536.
pub record IsSize (n : ℕ) : Type 0 where
  pub several : 1 < n
  pub small : n ≤ 32768
  pub turns : ℕ
  pub divides : turns * n ≡ 65536

module _ (F : Floats) where
  pub record IsValid (e : Endpoint F) : Type 0 where
    pub sent : Window.IsValid e.sent_packets
    pub sent_small : e.sent_packets.num_entries < 32768
    pub received : Window.IsValid e.received_packets
    pub reassembly : Window.IsValid e.fragment_reassembly
    -- The buffer of sent packets goes in step with the endpoint.
    pub in_step : e.sent_packets.sequence ≡ e.sequence
    pub acks_fit : e.num_acks ≤ e.config.ack_buffer_size
    pub acks_size : length e.acks ≡ e.config.ack_buffer_size

  pub bump-IsValid : (e : Endpoint F) (i : ℕ) → IsValid e → IsValid (bump F e i)
  bump-IsValid e i v = record {
    sent = v.sent;
    sent_small = v.sent_small;
    received = v.received;
    reassembly = v.reassembly;
    in_step = v.in_step;
    acks_fit = v.acks_fit;
    acks_size = v.acks_size;
  }

  pub record ConfigIsValid (config : Config F) : Type 0 where
    pub sent : IsSize config.sent_packets_buffer_size
    pub sent_small : config.sent_packets_buffer_size < 32768
    pub received : IsSize config.received_packets_buffer_size
    pub reassembly : IsSize config.fragment_reassembly_buffer_size

  created :
      {A : Type 0} (n : ℕ) (zeroed : A) → IsSize n → Window.IsValid (SequenceBuffer.create n zeroed)
  created n zeroed s = create-IsValid n s.turns zeroed s.several s.small s.divides

  -- `reliable_endpoint_create` with buffer sizes from 2 to 32768 that divide 65536, that of the
  -- buffer of sent packets below 32768, gives a valid endpoint.
  pub endpoint_create-IsValid :
      (config : Config F) (time : F.Double)
      → ConfigIsValid config
      → IsValid (Endpoint.create F config time)
  unfolding Endpoint.create SequenceBuffer.create
  endpoint_create-IsValid config time c = record {
    sent = created _ _ c.sent;
    sent_small = c.sent_small;
    received = created _ _ c.received;
    reassembly = created _ _ c.reassembly;
    in_step = refl;
    acks_fit = omega arith;
    acks_size = length-replicate _ _;
  }

  free_slots-IsValid :
      (rounds : ℕ) (b : SequenceBuffer ReassemblyData) (i : ℕ)
      → Window.IsValid b
      → Window.IsValid (free_slots F rounds b i)
  unfolding free_slots
  free_slots-IsValid zero b i v = v
  free_slots-IsValid (suc rounds) b i v =
      free_slots-IsValid rounds _ (i + 1) (elim (Option-cases (SequenceBuffer.at_index b i)) [
        | inl n ↦ rw n v
        | inr (j, n) ↦ rw n (with_data-IsValid b _ v (length-modify b.entry_data j cleanup))
      ])

  -- `reliable_endpoint_reset` keeps an endpoint valid.
  pub endpoint_reset-IsValid : (e : Endpoint F) → IsValid e → IsValid (Endpoint.reset F e)
  unfolding Endpoint.reset SequenceBuffer.reset
  endpoint_reset-IsValid e v = record {
    sent = reset-IsValid e.sent_packets v.sent;
    sent_small = v.sent_small;
    received = reset-IsValid e.received_packets v.received;
    reassembly = reset-IsValid _ (
        free_slots-IsValid e.config.fragment_reassembly_buffer_size e.fragment_reassembly 0
          v.reassembly);
    in_step = refl;
    acks_fit = omega arith;
    acks_size = length-replicate _ _;
  }

  pub clear_acks-IsValid : (e : Endpoint F) → IsValid e → IsValid (clear_acks F e)
  unfolding clear_acks
  clear_acks-IsValid e v = record {
    sent = v.sent;
    sent_small = v.sent_small;
    received = v.received;
    reassembly = v.reassembly;
    in_step = v.in_step;
    acks_fit = omega arith;
    acks_size = v.acks_size;
  }
