-- ===== src/Reliable/Fragment/Headers.antt =====
-- The fragment header: what the sender writes is read back, and the bytes that the reader may touch.
use yojimbo_cmake.Common.{
  drop, ℕ, ◌+◌, ◌-◌, ◌<◌, ◌≤◌, ◌≡◌, refl, ◌≢◌, false, List, [], ◌∷◌, ◌++◌, le→ltb, lt→leb, length,
  length-append, arith,
}
use yojimbo_cmake.Common.Int.{pos}
use yojimbo_cmake.Common.Results.{ok, fault}
use yojimbo_cmake.Reliable.Bytes.{write_uint8, write_uint16, read_uint8, read_uint16}
use yojimbo_cmake.Reliable.Header.{
  PacketHeader, write_packet_header, read_packet_header, read_ack, has_bit,
}
use yojimbo_cmake.Reliable.Header.RoundTrip.{IsValid, read_packet_header_lem}
use yojimbo_cmake.Reliable.Fragment.{
  fragment_header_bytes, write_fragment_header, read_first_fragment, read_fragment_header,
}

-- Behind the fragment header comes what was put behind it.
pub drop-write_fragment_header :
    (sequence id n : ℕ) (p : List ℕ)
    → drop fragment_header_bytes (write_fragment_header sequence id n ++ p) ≡ p
unfolding write_fragment_header write_uint8 write_uint16
drop-write_fragment_header sequence id n p = refl

-- A fragment after the first, written by the sender, is read back: its place, the number of
-- fragments, and its length; the middle ones must have the full size.
pub read_fragment_header_later :
    (sequence id n max_fragments size : ℕ) (payload : List ℕ)
    → sequence < 65536
    → 0 < id
    → id < n
    → n ≤ 256
    → n ≤ max_fragments
    → length payload ≤ size
    → (id ≢ n - 1 → length payload ≡ size)
    → read_fragment_header
        (write_fragment_header sequence id n ++ payload)
        (5 + length payload)
        max_fragments
        size
      ≡ ok (
        record {
          fragment_id = id;
          num_fragments = n;
          fragment_bytes = pos (length payload);
          sequence = sequence;
          ack = 0;
          ack_bits = 0;
        },
        5,
      )
unfolding read_fragment_header write_fragment_header read_first_fragment read_uint8 read_uint16
    write_uint8 write_uint16
read_fragment_header_later sequence id n max_fragments size payload hs h0 hn n256 nm fits full =
    ground arith

-- The first fragment carries the packet header, and its acks are read back with it.
pub read_fragment_header_first :
    (h : PacketHeader) (n max_fragments size : ℕ) (payload : List ℕ)
    → IsValid h
    → 0 < n
    → n ≤ 256
    → n ≤ max_fragments
    → length payload ≤ size
    → (1 ≢ n → length payload ≡ size)
    → let header = write_packet_header h in
      read_fragment_header
        (write_fragment_header h.sequence 0 n ++ (header ++ payload))
        (5 + length (header ++ payload))
        max_fragments
        size
      ≡ ok (
        record {
          fragment_id = 0;
          num_fragments = n;
          fragment_bytes = pos (length payload);
          sequence = h.sequence;
          ack = h.ack;
          ack_bits = h.ack_bits;
        },
        5,
      )
unfolding read_fragment_header write_fragment_header read_first_fragment read_uint8 read_uint16
    write_uint8 write_uint16
read_fragment_header_first h n max_fragments size payload v h0 n256 nm fits full = ground (
  arith,
  length-append (write_packet_header h) payload,
  read_packet_header_lem h payload (5 + length (write_packet_header h ++ payload)) v
      (omega (arith, length-append (write_packet_header h) payload)),
)

-- A packet header of three bytes that says that a 16 bit ack follows, with a longer length.
short_header_faults :
    (prefix_byte s0 s1 n : ℕ)
    → has_bit prefix_byte 0 ≡ false
    → has_bit prefix_byte 5 ≡ false
    → 5 ≤ n
    → read_packet_header (prefix_byte ∷ s0 ∷ s1 ∷ []) n ≡ fault
unfolding read_packet_header read_ack read_uint8 read_uint16
short_header_faults prefix_byte s0 s1 n even wide h =
    rw (le→ltb n 3 (omega arith), even, wide, le→ltb n 5 h) refl

-- The reader of a first fragment may leave the packet: the packet header is read from behind the
-- fragment header with the length of the whole packet. With a fragment of 8 bytes whose packet
-- header says that a 16 bit ack follows, the ack is read past the end.
pub read_fragment_header_past_end :
    (lo hi last_fragment prefix_byte s0 s1 max_fragments size : ℕ)
    → last_fragment < max_fragments
    → has_bit prefix_byte 0 ≡ false
    → has_bit prefix_byte 5 ≡ false
    → let packet = 1 ∷ lo ∷ hi ∷ 0 ∷ last_fragment ∷ prefix_byte ∷ s0 ∷ s1 ∷ [] in
      read_fragment_header packet (length packet) max_fragments size ≡ fault
unfolding read_fragment_header read_first_fragment read_uint8 read_uint16
read_fragment_header_past_end lo hi last_fragment prefix_byte s0 s1 max_fragments size h even wide =
    rw
      (
        le→ltb max_fragments (last_fragment + 1) (omega arith),
        lt→leb (last_fragment + 1) 0 (omega arith),
        short_header_faults prefix_byte s0 s1 8 even wide (omega arith),
      )
      refl
