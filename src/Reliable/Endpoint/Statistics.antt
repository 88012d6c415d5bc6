-- ===== src/Reliable/Endpoint/Statistics.antt =====
-- reliable/reliable.c: `reliable_endpoint_update`, which estimates packet loss and bandwidth from
-- the older half of the packets that the sequence buffers can hold.
use yojimbo_cmake.Common.{
  ℕ, zero, suc, ◌+◌, ◌-◌, ◌/◌, ◌%◌, Bool, false, not, Option, none, some, ◌&&◌, if◌then◌else◌,
  get_or,
}
use yojimbo_cmake.Reliable.SequenceBuffer.{SequenceBuffer, find}
use yojimbo_cmake.Reliable.Floats.{Floats}
use yojimbo_cmake.Reliable.Endpoint.{SentPacketData, Endpoint}

-- `(uint16_t) ( base_sequence + i )`, for `base_sequence` 65536 above `sequence - size`
abbrev sample_sequence : ℕ → ℕ → ℕ → ℕ
sample_sequence sequence size i = (sequence + 65536 - size % 65536 + 1 + 0xFFFF + i) % 65536

-- The entry of a sequence number, if there is one; the second argument is for reads out of range.
abbrev entry {ℓ} : {A : Type ℓ} → SequenceBuffer A → A → ℕ → Option A
entry b d sequence = elim (find b sequence) [
  | none ↦ none
  | some i ↦ some (get_or b.entry_data i d)
]

module _ (F : Floats) where
  open F use {
    Float, Double, float, double, to_float, to_double, tiny, flt_max, add_float, sub_float,
    mul_float, div_float, sub_double, mul_double, div_double, fabs, double_less, double_equal,
  }

  -- What a sample of a sent packet counts as: dropped unless it is acked.
  abbrev is_dropped : Option (SentPacketData F) → Bool
  is_dropped none = false
  is_dropped (some s) = not s.acked

  -- The loop that counts `num_dropped`.
  pub count_dropped : ℕ → SequenceBuffer (SentPacketData F) → ℕ → SentPacketData F → ℕ → ℕ → ℕ
  count_dropped zero b size d i num_dropped = num_dropped
  count_dropped (suc rounds) b size d i num_dropped = count_dropped rounds b size d (i + 1) (
      if is_dropped (entry b d (sample_sequence b.sequence size i))
      then num_dropped + 1
      else num_dropped)

  -- if ( fabs( old - new ) > 0.00001 ) old += ( new - old ) * factor; else old = new;
  pub smooth : Float → Float → Float → Float
  smooth old new factor =
      if double_less tiny (fabs (to_double (sub_float old new)))
      then add_float old (mul_float (sub_float new old) factor)
      else new

  pub updated_packet_loss : Endpoint F → Float
  updated_packet_loss e =
      let size = e.config.sent_packets_buffer_size in
      let none_sent : SentPacketData F = record {
        time = double 0;
        acked = false;
        packet_bytes = 0;
      } in
      let num_dropped = count_dropped (size / 2) e.sent_packets size none_sent 0 0 in
      smooth e.packet_loss
        (mul_float (div_float (float num_dropped) (float (size / 2))) (float 100))
        e.config.packet_loss_smoothing_factor

  -- The variables of a bandwidth loop: `bytes_sent`, `start_time` and `finish_time`.
  pub record Span : Type 0 where
    pub bytes : ℕ
    pub start : Double
    pub finish : Double

  pub add_sample : Span → Option (ℕ × Double) → Span
  add_sample s none = s
  add_sample s (some (bytes, time)) = record {
    bytes = s.bytes + bytes;
    start = if double_less time s.start then time else s.start;
    finish = if double_less s.finish time then time else s.finish;
  }

  module _ {A : Type 0} (b : SequenceBuffer A) (size : ℕ) (sample : ℕ → Option (ℕ × Double)) where
    -- The loop over the samples, of which the one with a sequence number is `sample` of it.
    pub span_loop : ℕ → ℕ → Span → Span
    span_loop zero i s = s
    span_loop (suc rounds) i s =
        span_loop rounds (i + 1) (add_sample s (sample (sample_sequence b.sequence size i)))

    -- The new value of a bandwidth that was `old`.
    pub updated_bandwidth : Float → Float → Float
    updated_bandwidth old factor =
        let s = span_loop (size / 2) 0 (record { bytes = 0; start = flt_max; finish = double 0 }) in
        let kbps = to_float (
          div_double
            (mul_double (div_double (double s.bytes) (sub_double s.finish s.start))
              (to_double (float 8)))
            (to_double (float 1000))) in
        if not (double_equal s.start flt_max) && not (double_equal s.finish (double 0))
        then smooth old kbps factor
        else old

  pub sent_sample : Endpoint F → ℕ → Option (ℕ × Double)
  sent_sample e sequence =
      elim (entry e.sent_packets (record { time = double 0; acked = false; packet_bytes = 0 })
        sequence) [ none ↦ none | some s ↦ some (s.packet_bytes, s.time) ]

  pub received_sample : Endpoint F → ℕ → Option (ℕ × Double)
  received_sample e sequence =
      elim (entry e.received_packets (record { time = double 0; packet_bytes = 0 }) sequence) [
        | none ↦ none
        | some r ↦ some (r.packet_bytes, r.time)
      ]

  pub acked_sample : Endpoint F → ℕ → Option (ℕ × Double)
  acked_sample e sequence =
      elim (entry e.sent_packets (record { time = double 0; acked = false; packet_bytes = 0 })
        sequence) [ none ↦ none | some s ↦ if s.acked then some (s.packet_bytes, s.time) else none ]

  pub update : Endpoint F → Double → Endpoint F
  update e time =
      let c = e.config in
      record e {
        time = time;
        packet_loss = updated_packet_loss e;
        sent_bandwidth_kbps =
            updated_bandwidth e.sent_packets c.sent_packets_buffer_size (sent_sample e)
              e.sent_bandwidth_kbps c.bandwidth_smoothing_factor;
        received_bandwidth_kbps =
            updated_bandwidth e.received_packets c.received_packets_buffer_size (received_sample e)
              e.received_bandwidth_kbps c.bandwidth_smoothing_factor;
        acked_bandwidth_kbps =
            updated_bandwidth e.sent_packets c.sent_packets_buffer_size (acked_sample e)
              e.acked_bandwidth_kbps c.bandwidth_smoothing_factor;
      }
