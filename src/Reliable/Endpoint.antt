-- ===== src/Reliable/Endpoint.antt =====
-- reliable/reliable.c: `struct reliable_endpoint_t`, one side of a connection, and what it keeps of
-- the packets that it has sent and received.
pub mod Counter
pub mod Send
pub mod Receive
pub mod Depth
pub mod Assembling
pub mod Statistics
pub mod Valid
pub mod Sending
pub mod Fragmenting
pub mod Acking
mod Tests
use yojimbo_cmake.Common.{
  ℕ, zero, suc, ◌+◌, ◌-◌, ◌%◌, ◌^◌, ◌≡◌, Bool, true, false, Option, none, some, List, [], ◌∷◌,
  modify, replicate, ltb,
}
use yojimbo_cmake.Reliable.SequenceBuffer
use yojimbo_cmake.Reliable.SequenceBuffer.{SequenceBuffer}
use yojimbo_cmake.Reliable.Fragment.{ReassemblyData, cleanup}
use yojimbo_cmake.Reliable.Floats.{Floats}

-- What the endpoint hands to its callbacks: `transmit_packet_function` and
-- `process_packet_function`, with the sequence number and the bytes.
pub data Event : Type 0 where
  transmit : ℕ → List ℕ → Event
  process : ℕ → List ℕ → Event

module _ (F : Floats) where
  open F use {Float, Double, float}

  -- `struct reliable_config_t`, without the name and the callbacks.
  pub record Config : Type 0 where
    pub max_packet_size : ℕ
    pub fragment_above : ℕ
    pub max_fragments : ℕ
    pub fragment_size : ℕ
    pub ack_buffer_size : ℕ
    pub sent_packets_buffer_size : ℕ
    pub received_packets_buffer_size : ℕ
    pub fragment_reassembly_buffer_size : ℕ
    pub rtt_smoothing_factor : Float
    pub packet_loss_smoothing_factor : Float
    pub bandwidth_smoothing_factor : Float
    pub packet_header_size : ℕ

  pub record SentPacketData : Type 0 where
    pub time : Double
    pub acked : Bool
    pub packet_bytes : ℕ

  pub record ReceivedPacketData : Type 0 where
    pub time : Double
    pub packet_bytes : ℕ

  pub record Endpoint : Type 0 where
    pub config : Config
    pub time : Double
    pub rtt : Float
    pub packet_loss : Float
    pub sent_bandwidth_kbps : Float
    pub received_bandwidth_kbps : Float
    pub acked_bandwidth_kbps : Float
    pub num_acks : ℕ
    pub acks : List ℕ
    pub sequence : ℕ
    pub sent_packets : SequenceBuffer SentPacketData
    pub received_packets : SequenceBuffer ReceivedPacketData
    pub fragment_reassembly : SequenceBuffer ReassemblyData
    pub counters : List ℕ

  -- `endpoint->counters[i]++`, on a uint64_t
  abbrev pub bump : Endpoint → ℕ → Endpoint
  bump e i = record e { counters = modify e.counters i (λ n. (n + 1) % 2 ^ 64) }

  abbrev pub zeroed_reassembly : ReassemblyData
  zeroed_reassembly = record {
    sequence = 0;
    ack = 0;
    ack_bits = 0;
    num_fragments_received = 0;
    num_fragments_total = 0;
    packet_data = none;
    packet_bytes = 0;
    packet_header_bytes = 0;
    fragment_received = replicate 256 0;
  }

  pub create : Config → Double → Endpoint
  create config time = record {
    config = config;
    time = time;
    rtt = float 0;
    packet_loss = float 0;
    sent_bandwidth_kbps = float 0;
    received_bandwidth_kbps = float 0;
    acked_bandwidth_kbps = float 0;
    num_acks = 0;
    acks = replicate config.ack_buffer_size 0;
    sequence = 0;
    sent_packets =
        SequenceBuffer.create config.sent_packets_buffer_size
          (record { time = F.double 0; acked = false; packet_bytes = 0 });
    received_packets =
        SequenceBuffer.create config.received_packets_buffer_size
          (record { time = F.double 0; packet_bytes = 0 });
    fragment_reassembly =
        SequenceBuffer.create config.fragment_reassembly_buffer_size zeroed_reassembly;
    counters = replicate 10 0;
  }

  pub next_packet_sequence : Endpoint → ℕ
  next_packet_sequence e = e.sequence

  -- The acks that the caller reads: the first `num_acks` of the array.
  pub get_acks : Endpoint → List ℕ × ℕ
  get_acks e = (e.acks, e.num_acks)

  pub clear_acks : Endpoint → Endpoint
  clear_acks e = record e { num_acks = 0 }

  -- The loop of `reliable_endpoint_reset`: the packet data of each slot in use is freed.
  free_slots : ℕ → SequenceBuffer ReassemblyData → ℕ → SequenceBuffer ReassemblyData
  free_slots zero b i = b
  free_slots (suc rounds) b i =
      free_slots rounds
        (elim (SequenceBuffer.at_index b i) [
          | none ↦ b
          | some j ↦ record b { entry_data = modify b.entry_data j cleanup }
        ])
        (i + 1)

  pub reset : Endpoint → Endpoint
  reset e = record e {
    num_acks = 0;
    sequence = 0;
    acks = replicate e.config.ack_buffer_size 0;
    counters = replicate 10 0;
    sent_packets = SequenceBuffer.reset e.sent_packets;
    received_packets = SequenceBuffer.reset e.received_packets;
    fragment_reassembly =
        SequenceBuffer.reset
          (free_slots e.config.fragment_reassembly_buffer_size e.fragment_reassembly 0);
  }
