-- ===== src/Reliable/Fragment/Assembly.antt =====
-- The buffer in which a packet is put together: what stands in it once all fragments are stored.
pub mod Storing
use yojimbo_cmake.Common.{
  ℕ, zero, suc, ◌+◌, ◌-◌, ◌*◌, ◌%◌, ◌<◌, ◌≤◌, ◌≡◌, ◌≢◌, refl, sym, ap, ◌∙◌, false, Bool-cases, inl,
  inr, Option, none, some, List, [], ◌∷◌, not, ◌&&◌, ltb, leb, ltb→le, ◌==◌, ==_ne, if◌then◌else◌,
  length, get_or, set, take, drop, length-set, take-drop_cons, get_or-set_ne, arith,
}
use yojimbo_cmake.Common.Results.{
  fault, Returns, Returns-bind, Returns-then, Returns-if, Returns-refuse, Returns-weaken,
}
use yojimbo_cmake.Common.Int.{ltb_ℤ, eq_ℤ}
use yojimbo_cmake.Reliable.Bytes.{read_uint8, read_uint16}
use yojimbo_cmake.Reliable.Header.{PacketHeader, write_packet_header}
use yojimbo_cmake.Reliable.Header.RoundTrip.{length-write_packet_header, write_packet_header-even}
use yojimbo_cmake.Reliable.Fragment.{
  ReassemblyData, cleanup, FragmentHeader, read_first_fragment, read_fragment_header, buffer_of,
  store_payload, store_first, store_fragment_data,
}

-- How many entries are not 0.
abbrev pub num_set : List ℕ → ℕ
num_set [] = 0
num_set (x ∷ xs) = (if x == 0 then 0 else 1) + num_set xs

-- In front of the payload, which begins at byte 9, stand the bytes of a whole packet header: all
-- those that `reliable_write_packet_header` writes for it.
pub record HasHeader (header_bytes : ℕ) (buffer : List ℕ) : Type 0 where
  pub header : PacketHeader
  pub size : header_bytes ≡ length (write_packet_header header)
  pub written : take header_bytes (drop (9 - header_bytes) buffer) ≡ write_packet_header header

abbrev pub HoldsHeader : ℕ → Option (List ℕ) → Type 0
HoldsHeader header_bytes none = Unit
HoldsHeader header_bytes (some buffer) = HasHeader header_bytes buffer

-- The count is that of the fragments noted, which are among those of the packet, and when fragment
-- 0 is noted its packet header is in the buffer.
pub record IsAssembling (r : ReassemblyData) : Type 0 where
  pub size : length r.fragment_received ≡ 256
  pub counted : r.num_fragments_received ≡ num_set r.fragment_received
  pub inside : (i : ℕ) → r.num_fragments_total ≤ i → get_or r.fragment_received i 0 ≡ 0
  pub headed : get_or r.fragment_received 0 0 ≢ 0 → HoldsHeader r.packet_header_bytes r.packet_data

pub cleanup-IsAssembling : (r : ReassemblyData) → IsAssembling r → IsAssembling (cleanup r)
unfolding cleanup
cleanup-IsAssembling r v = record {
  size = v.size;
  counted = v.counted;
  inside = v.inside;
  headed = λ ne. tt;
}

pub num_set-set :
    (xs : List ℕ) (i : ℕ)
    → i < length xs
    → get_or xs i 0 ≡ 0
    → num_set (set xs i 1) ≡ num_set xs + 1
num_set-set [] i h e = absurd (omega arith)
num_set-set (x ∷ xs) zero h e = rw e (omega arith)
num_set-set (x ∷ xs) (suc i) h e = omega (arith, num_set-set xs i (omega arith) e)

num_set-le : (xs : List ℕ) (n : ℕ) → ((i : ℕ) → n ≤ i → get_or xs i 0 ≡ 0) → num_set xs ≤ n
num_set-le [] n h = omega arith
num_set-le (x ∷ xs) zero h =
    rw (h 0 (omega arith)) (omega (arith, num_set-le xs zero (λ i le. h (suc i) (omega arith))))
num_set-le (x ∷ xs) (suc n) h =
    let rest : num_set xs ≤ n = num_set-le xs n (λ i le. h (suc i) (omega arith)) in
    elim (Bool-cases (x == 0)) [
      | inl e ↦ rw e (omega (arith, rest))
      | inr e ↦ rw e (omega (arith, rest))
    ]

-- When as many fragments are noted as the packet has, fragment 0 is one of them.
num_set-all :
    (xs : List ℕ) (n : ℕ)
    → 1 ≤ n
    → ((i : ℕ) → n ≤ i → get_or xs i 0 ≡ 0)
    → num_set xs ≡ n
    → get_or xs 0 0 ≢ 0
num_set-all [] n lo h e z = absurd (omega arith)
num_set-all (x ∷ xs) zero lo h e z = absurd (omega arith)
num_set-all (x ∷ xs) (suc n) lo h e z =
    omega (arith, rw z at e, num_set-le xs n (λ i le. h (suc i) (omega arith)))

pub complete-HoldsHeader :
    (r : ReassemblyData)
    → IsAssembling r
    → 1 ≤ r.num_fragments_received
    → r.num_fragments_received ≡ r.num_fragments_total
    → HoldsHeader r.packet_header_bytes r.packet_data
complete-HoldsHeader r v lo e = v.headed (
    num_set-all r.fragment_received r.num_fragments_total (omega (arith, e)) v.inside
      (sym v.counted ∙ e))

-- A fragment header that is read names one of the fragments of its packet.
pub read_fragment_header-Returns :
    (packet_data : List ℕ) (packet_bytes max_fragments fragment_size : ℕ)
    → Returns
        (λ r. (r.0.fragment_id < r.0.num_fragments) × (r.0.num_fragments ≤ max_fragments))
        (read_fragment_header packet_data packet_bytes max_fragments fragment_size)
unfolding read_fragment_header
read_fragment_header-Returns packet_data packet_bytes max_fragments fragment_size =
    Returns-refuse InPacket (ltb packet_bytes 5) _ λ e.
      Returns-bind InPacket (read_uint8 packet_data) _ λ (prefix_byte, p).
        Returns-refuse InPacket (not (prefix_byte == 1)) _ λ e.
          Returns-bind InPacket (read_uint16 p) _ λ (sequence, p).
            Returns-bind InPacket (read_uint8 p) _ λ (id, p).
              Returns-bind InPacket (read_uint8 p) _ λ (last, p).
                Returns-refuse InPacket (ltb max_fragments (last + 1)) _ λ few.
                  Returns-refuse InPacket (leb (last + 1) id) _ λ below.
                    Returns-bind InPacket (read_first_fragment packet_data packet_bytes sequence id)
                      _
                      λ (bytes, ack, ack_bits).
                        Returns-refuse InPacket (ltb_ℤ fragment_size bytes) _ λ e.
                          Returns-refuse InPacket
                            (not (id == last + 1 - 1) && not (eq_ℤ bytes fragment_size)) _
                            λ e. (under id (last + 1) below, ltb→le max_fragments (last + 1) few)
  where
    InPacket : FragmentHeader × ℕ → Type 0
    InPacket r = (r.0.fragment_id < r.0.num_fragments) × (r.0.num_fragments ≤ max_fragments)

    under : (id n : ℕ) → leb n id ≡ false → id < n
    under id n e = ground arith

-- A packet that was put together, with a header in front of its payload, begins with the even byte
-- of the header.
abbrev pub IsRegular : List ℕ → Type 0
IsRegular packet = (b : ℕ) × (rest : List ℕ) × (packet ≡ b ∷ rest) × (b % 2 ≡ 0)

pub header-IsRegular :
    (buffer : List ℕ) (header_bytes packet_bytes : ℕ)
    → HasHeader header_bytes buffer
    → 9 + packet_bytes ≤ length buffer
    → IsRegular (take (header_bytes + packet_bytes) (drop (9 - header_bytes) buffer))
header-IsRegular buffer m packet_bytes h fits =
    let n : ℕ = m + packet_bytes - 1 in
    let (b, rest, e, even) = write_packet_header-even h.header in
    (
      get_or buffer (9 - m) 0,
      take n (drop (suc (9 - m)) buffer),
      ap (λ k. take k (drop (9 - m) buffer)) size
          ∙ take-drop_cons buffer (9 - m) n 0
              (omega (arith, h.size, length-write_packet_header h.header)),
      rw (first_byte b rest e) even,
    )
  where
    size : m + packet_bytes ≡ suc (m + packet_bytes - 1)
    size = omega (arith, h.size, length-write_packet_header h.header)

    few : m ≡ suc (m - 1)
    few = omega (arith, h.size, length-write_packet_header h.header)

    first_byte :
        (b : ℕ) (rest : List ℕ)
        → write_packet_header h.header ≡ b ∷ rest
        → get_or buffer (9 - m) 0 ≡ b
    first_byte b rest e =
        ap (λ l. get_or l 0 0)
          (sym (
              take-drop_cons buffer (9 - m) (m - 1) 0
                (omega (arith, h.size, length-write_packet_header h.header)))
            ∙ ap (λ k. take k (drop (9 - m) buffer)) (sym few)
            ∙ h.written
            ∙ e)
