-- ===== src/Reliable/Fragment.antt =====
-- reliable/reliable.c: the header of a fragment, and the store of a fragment in the buffer in which
-- its packet is put together.
pub mod Headers
pub mod Assembly
mod Tests
use yojimbo_cmake.Common.{
  ℕ, zero, suc, ◌+◌, ◌-◌, ◌*◌, ◌%◌, ◌<◌, ◌≡◌, Bool, true, false, not, ◌&&◌, Option, none, some,
  List, [], ◌∷◌, ◌++◌, ltb, leb, ◌==◌, if◌then◌else◌, length, drop, replicate, set,
}
use yojimbo_cmake.Common.Int.{ℤ, pos, sub_ℕ, ltb_ℤ, eq_ℤ}
use yojimbo_cmake.Common.Results.{Result, ok, invalid, fault, ◌>>=◌, ◌>>◌, refuse_if}
use yojimbo_cmake.Common.Memory.{memcpy}
use yojimbo_cmake.Reliable.Bytes.{write_uint8, write_uint16, read_uint8, read_uint16}
use yojimbo_cmake.Reliable.Header.{
  PacketHeader, max_packet_header_bytes, write_packet_header, read_packet_header,
}

abbrev pub fragment_header_bytes : ℕ
fragment_header_bytes = 5

-- What `reliable_read_fragment_header` stores through its pointers.
pub record FragmentHeader : Type 0 where
  pub fragment_id : ℕ
  pub num_fragments : ℕ
  pub fragment_bytes : ℤ
  pub sequence : ℕ
  pub ack : ℕ
  pub ack_bits : ℕ

-- The five bytes that `reliable_endpoint_send_packet` writes before each fragment.
pub write_fragment_header : ℕ → ℕ → ℕ → List ℕ
write_fragment_header sequence fragment_id num_fragments =
    write_uint8 1
    ++ (write_uint16 sequence
        ++ (write_uint8 (fragment_id % 256) ++ write_uint8 ((num_fragments - 1) % 256)))

-- Fragment 0 carries a packet header behind the fragment header. The call gives the length of the
-- whole packet, not of what is left of it behind the fragment header. The result is
-- `fragment_bytes`, `packet_ack` and `packet_ack_bits`.
pub read_first_fragment : List ℕ → ℕ → ℕ → ℕ → Result (ℤ × ℕ × ℕ)
read_first_fragment packet_data packet_bytes sequence fragment_id =
    if fragment_id == 0
    then (do
      (h, bytes) ← read_packet_header (drop fragment_header_bytes packet_data) packet_bytes
      refuse_if (not (h.sequence == sequence))
      ok (sub_ℕ packet_bytes (bytes + fragment_header_bytes), h.ack, h.ack_bits))
    else ok (sub_ℕ packet_bytes fragment_header_bytes, 0, 0)

-- The fragment header and the bytes that it takes.
pub read_fragment_header : List ℕ → ℕ → ℕ → ℕ → Result (FragmentHeader × ℕ)
read_fragment_header packet_data packet_bytes max_fragments fragment_size = do
  refuse_if (ltb packet_bytes fragment_header_bytes)
  (prefix_byte, p) ← read_uint8 packet_data
  refuse_if (not (prefix_byte == 1))
  (sequence, p) ← read_uint16 p
  (fragment_id, p) ← read_uint8 p
  (last_fragment, p) ← read_uint8 p
  let num_fragments = last_fragment + 1
  refuse_if (ltb max_fragments num_fragments)
  refuse_if (leb num_fragments fragment_id)
  (fragment_bytes, ack, ack_bits) ←
      read_first_fragment packet_data packet_bytes sequence fragment_id
  refuse_if (ltb_ℤ fragment_size fragment_bytes)
  refuse_if (not (fragment_id == num_fragments - 1) && not (eq_ℤ fragment_bytes fragment_size))
  ok (
    record {
      fragment_id = fragment_id;
      num_fragments = num_fragments;
      fragment_bytes = fragment_bytes;
      sequence = sequence;
      ack = ack;
      ack_bits = ack_bits;
    },
    length packet_data - length p,
  )

-- `struct reliable_fragment_reassembly_data_t`; `packet_data` is NULL or an allocated buffer, and
-- `packet_bytes` cannot be negative where a store returns.
pub record ReassemblyData : Type 0 where
  pub sequence : ℕ
  pub ack : ℕ
  pub ack_bits : ℕ
  pub num_fragments_received : ℕ
  pub num_fragments_total : ℕ
  pub packet_data : Option (List ℕ)
  pub packet_bytes : ℕ
  pub packet_header_bytes : ℕ
  pub fragment_received : List ℕ

-- `reliable_fragment_reassembly_data_cleanup`
pub cleanup : ReassemblyData → ReassemblyData
cleanup r = record r { packet_data = none }

-- A write through NULL is a fault.
abbrev pub buffer_of : ReassemblyData → Result (List ℕ)
buffer_of r = elim r.packet_data [ none ↦ fault | some b ↦ ok b ]

-- The last two statements of `store_fragment_data`, on a fragment whose data and length are known.
-- A negative length, as `size_t`, is past the end of every buffer.
pub store_payload : ReassemblyData → ℕ → ℕ → List ℕ → ℕ → Result ReassemblyData
store_payload r fragment_id fragment_size fragment_data fragment_bytes = do
  buffer ← buffer_of r
  buffer' ←
      memcpy buffer (max_packet_header_bytes + fragment_id * fragment_size) fragment_data
        fragment_bytes
  ok (record r {
    packet_data = some buffer';
    packet_bytes =
        if fragment_id == r.num_fragments_total - 1
        then (r.num_fragments_total - 1) * fragment_size + fragment_bytes
        else r.packet_bytes;
  })

-- The block under `if ( fragment_id == 0 )`, and what follows it. The packet header is written
-- anew, and its length is what is skipped in the fragment.
pub store_first : ReassemblyData → PacketHeader → ℕ → List ℕ → ℕ → Result ReassemblyData
store_first r h fragment_size fragment_data fragment_bytes = do
  let header = write_packet_header h
  buffer ← buffer_of r
  buffer' ← memcpy buffer (max_packet_header_bytes - length header) header (length header)
  let r' = record r { packet_data = some buffer'; packet_header_bytes = length header }
  if ltb fragment_bytes (length header)
      then fault
      else store_payload r' 0 fragment_size (drop (length header) fragment_data)
          (fragment_bytes - length header)

pub store_fragment_data : ReassemblyData → PacketHeader → ℕ → ℕ → List ℕ → ℕ → Result ReassemblyData
store_fragment_data r h fragment_id fragment_size fragment_data fragment_bytes =
    if fragment_id == 0
    then store_first r h fragment_size fragment_data fragment_bytes
    else store_payload r fragment_id fragment_size fragment_data fragment_bytes
