-- ===== src/Reliable/Fragment/Assembly/Storing.antt =====
-- reliable/reliable.c: the store of a fragment in the buffer of its packet.
use yojimbo_cmake.Common.{
  ℕ, ◌+◌, ◌-◌, ◌*◌, ◌<◌, ◌≤◌, ◌≡◌, ◌≢◌, refl, ap, ◌∙◌, Bool-cases, inl, inr, Option, none, some,
  List, ltb, ◌==◌, ==_ne, length, get_or, set, take, drop, length-set, get_or-set_ne, arith,
}
use yojimbo_cmake.Common.Results.{
  fault, Returns, Returns-bind, Returns-then, Returns-if, Returns-weaken,
}
use yojimbo_cmake.Common.Memory.{
  memcpy, splice, region-splice, region-splice_self, take-length, memcpy-Returns,
}
use yojimbo_cmake.Reliable.Header.{PacketHeader, write_packet_header}
use yojimbo_cmake.Reliable.Header.RoundTrip.{length-write_packet_header}
use yojimbo_cmake.Reliable.Fragment.{
  ReassemblyData, buffer_of, store_payload, store_first, store_fragment_data,
}
use yojimbo_cmake.Reliable.Fragment.Assembly.{num_set-set, HasHeader, HoldsHeader, IsAssembling}

-- What a store keeps: all but the buffer and the number of bytes; and a header, once there.
record Stores (r r' : ReassemblyData) : Type 0 where
  flags : r'.fragment_received ≡ r.fragment_received
  num : r'.num_fragments_received ≡ r.num_fragments_received
  total : r'.num_fragments_total ≡ r.num_fragments_total
  header :
      HoldsHeader r.packet_header_bytes r.packet_data
      → HoldsHeader r'.packet_header_bytes r'.packet_data

abbrev KeepsHeader : List ℕ → List ℕ → Type 0
KeepsHeader buffer buffer' = (m : ℕ) → HasHeader m buffer → HasHeader m buffer'

store_payload-Stores :
    (r : ReassemblyData) (id size : ℕ) (bytes : List ℕ) (n : ℕ)
    → Returns (Stores r) (store_payload r id size bytes n)
unfolding store_payload
store_payload-Stores r id size bytes n = from_buffer r.packet_data refl
  where
    kept :
        (buffer : List ℕ)
        → 9 + id * size + n ≤ length buffer
        → KeepsHeader buffer (splice buffer (9 + id * size) (take n bytes))
    kept buffer fits m h = record {
      header = h.header;
      size = h.size;
      written =
          region-splice buffer (9 + id * size) (take n bytes) (9 - m) m
            (omega (arith, h.size, length-write_packet_header h.header)) (omega (arith, fits))
          ∙ h.written;
    }

    from_buffer :
        (o : Option (List ℕ))
        → r.packet_data ≡ o
        → Returns (Stores r) (store_payload r id size bytes n)
    from_buffer none e = rw (e, Returns) tt
    from_buffer (some buffer) e =
        rw (e, Returns)
          (Returns-then (KeepsHeader buffer) (Stores r) (memcpy buffer (9 + id * size) bytes n) _
            (memcpy-Returns (KeepsHeader buffer) buffer (9 + id * size) bytes n
              (λ le fits. kept buffer fits))
            λ buffer' k. record {
              flags = refl;
              num = refl;
              total = refl;
              header = λ h. k r.packet_header_bytes (rw e at h);
            })

-- The header that the first fragment is stored with.
store_first-Stores :
    (r : ReassemblyData) (h : PacketHeader) (size : ℕ) (bytes : List ℕ) (n : ℕ)
    → Returns
        (λ r'.
          (r'.fragment_received ≡ r.fragment_received)
          × (r'.num_fragments_received ≡ r.num_fragments_received)
          × (r'.num_fragments_total ≡ r.num_fragments_total)
          × HoldsHeader r'.packet_header_bytes r'.packet_data)
        (store_first r h size bytes n)
unfolding store_first
store_first-Stores r h size bytes n = Returns-bind Stored (buffer_of r) _ λ buffer.
    Returns-then (HasHeader len) Stored (memcpy buffer (9 - len) (write_packet_header h) len) _
      (memcpy-Returns (HasHeader len) buffer (9 - len) (write_packet_header h) len
        (λ le fits. written buffer (omega arith)))
      λ buffer' w.
        Returns-if Stored (ltb n len) fault _ (λ e. tt)
          (Returns-weaken (Stores (with_header buffer')) Stored _
            (store_payload-Stores (with_header buffer') 0 size (drop len bytes) (n - len))
            (λ r' s. (s.flags, s.num, s.total, s.header w)))
  where
    Stored : ReassemblyData → Type 0
    Stored r' =
        (r'.fragment_received ≡ r.fragment_received)
        × (r'.num_fragments_received ≡ r.num_fragments_received)
        × (r'.num_fragments_total ≡ r.num_fragments_total)
        × HoldsHeader r'.packet_header_bytes r'.packet_data

    len : ℕ
    len = length (write_packet_header h)

    with_header : List ℕ → ReassemblyData
    with_header buffer = record r { packet_data = some buffer; packet_header_bytes = len }

    written :
        (buffer : List ℕ)
        → 9 - len ≤ length buffer
        → HasHeader len (splice buffer (9 - len) (take len (write_packet_header h)))
    written buffer fits = record {
      header = h;
      size = refl;
      written =
          ap (λ l. take len (drop (9 - len) (splice buffer (9 - len) l)))
            (take-length (write_packet_header h))
          ∙ region-splice_self buffer (9 - len) (write_packet_header h) fits;
    }

-- Storing a fragment that is not yet noted keeps the entry in order.
pub store-IsAssembling :
    (r : ReassemblyData) (h : PacketHeader) (id size : ℕ) (bytes : List ℕ) (n : ℕ)
    → IsAssembling r
    → id < r.num_fragments_total
    → id < 256
    → get_or r.fragment_received id 0 ≡ 0
    → Returns
        (λ r'. IsAssembling r' × (1 ≤ r'.num_fragments_received))
        (store_fragment_data
          (record r {
            num_fragments_received = r.num_fragments_received + 1;
            fragment_received = set r.fragment_received id 1;
          })
          h
          id
          size
          bytes
          n)
unfolding store_fragment_data
store-IsAssembling r h id size bytes n v below small absent = elim (Bool-cases (id == 0)) [
  | inl e ↦
      rw (e, Returns)
        (Returns-weaken _ Stored (store_first noted h size bytes n)
          (store_first-Stores noted h size bytes n)
          (λ r' (flags, num, total, header). stored r' flags num total (λ ne. header)))
  | inr e ↦
      rw (e, Returns)
        (Returns-weaken (Stores noted) Stored (store_payload noted id size bytes n)
          (store_payload-Stores noted id size bytes n)
          (λ r' s. stored r' s.flags s.num s.total (λ ne. s.header (
            v.headed (λ z.
              ne (
                rw s.flags (get_or-set_ne r.fragment_received id 0 1 0 ((==_ne id 0).0 e) ∙ z)))))))
]
  where
    noted : ReassemblyData
    noted = record r {
      num_fragments_received = r.num_fragments_received + 1;
      fragment_received = set r.fragment_received id 1;
    }

    Stored : ReassemblyData → Type 0
    Stored r' = IsAssembling r' × (1 ≤ r'.num_fragments_received)

    stored :
        (r' : ReassemblyData)
        → r'.fragment_received ≡ set r.fragment_received id 1
        → r'.num_fragments_received ≡ r.num_fragments_received + 1
        → r'.num_fragments_total ≡ r.num_fragments_total
        → (get_or r'.fragment_received 0 0 ≢ 0 → HoldsHeader r'.packet_header_bytes r'.packet_data)
        → Stored r'
    stored r' flags num total header = (
      record {
        size = rw flags (length-set r.fragment_received id 1 ∙ v.size);
        counted =
            rw (flags, num)
              (omega (
                arith,
                v.counted,
                num_set-set r.fragment_received id (omega (arith, v.size)) absent,
              ));
        inside = λ i le. rw flags (
            get_or-set_ne r.fragment_received id i 1 0 (λ e. omega (arith, total, e))
            ∙ v.inside i (omega (arith, total)));
        headed = header;
      },
      omega (arith, num),
    )
