-- ===== src/Reliable/Endpoint/Fragmenting.antt =====
-- The fragments that `reliable_endpoint_send_packet` makes of a packet carry all of it.
use yojimbo_cmake.Common.{
  ℕ, zero, suc, ◌+◌, ◌*◌, ◌%◌, ◌<◌, ◌≤◌, ◌≡◌, refl, ◌∙◌, ap, ap₂, false, Bool-cases, inl, inr, List,
  [], ◌∷◌, ◌++◌, length, take, drop, length-drop, take-append-drop, drop-append, ◌==◌, ==_iff,
  ==_ne, if◌then◌else◌, arith,
}
use native.Mathlib.Nat.{div-add-mod', mod-lt}
use yojimbo_cmake.Reliable.Fragment.{fragment_header_bytes}
use yojimbo_cmake.Reliable.Fragment.Headers.{drop-write_fragment_header}
use yojimbo_cmake.Reliable.Endpoint.Send.{fragments_needed, fragments}

-- What the fragments carry behind their headers, the first of which is followed by a packet header
-- of `n` bytes.
abbrev pub carried : ℕ → List (List ℕ) → List ℕ
carried n [] = []
carried n (f ∷ fs) = drop n (drop fragment_header_bytes f) ++ carried 0 fs

-- There are enough fragments for the packet, and the last one is not empty.
pub fragments_needed_lem :
    (n size : ℕ)
    → 0 < size
    → (n ≤ fragments_needed n size * size) × (fragments_needed n size * size < n + size)
unfolding fragments_needed
fragments_needed_lem n size h = elim (Bool-cases (n % size == 0)) [
  | inl t ↦ rw t (grind (arith, div-add-mod' n size, (==_iff (n % size) 0).0 t))
  | inr f ↦ rw f (grind (arith, div-add-mod' n size, mod-lt n h))
]

carried-fragments :
    (rounds sequence n size : ℕ) (header : List ℕ) (i : ℕ) (q : List ℕ)
    → length q ≤ rounds * size
    → carried (length (if i == 0 then header else [])) (fragments rounds sequence n size header i q)
      ≡ q
unfolding fragments
carried-fragments zero sequence n size header i [] h = refl
carried-fragments zero sequence n size header i (x ∷ q) h = absurd (omega arith)
carried-fragments (suc rounds) sequence n size header i q h =
    ap₂ (λ a b. a ++ b)
      (ap (λ p. drop (length first) p)
          (drop-write_fragment_header sequence i n (first ++ take size q))
        ∙ drop-append first (take size q))
      (rw later at (
        carried-fragments rounds sequence n size header (i + 1) (drop size q)
          (rw (length-drop size q) (grind arith))))
    ∙ take-append-drop size q
  where
    first : List ℕ
    first = if i == 0 then header else []

    later : (i + 1 == 0) ≡ false
    later = (==_ne (i + 1) 0).1 (omega arith)

-- The fragments of a packet, one after the other and without their headers, are the packet; and
-- there is no fragment too many.
pub fragments_lem :
    (sequence size : ℕ) (header packet : List ℕ)
    → 0 < size
    → let n = fragments_needed (length packet) size in
      (carried (length header) (fragments n sequence n size header 0 packet) ≡ packet)
      × (n * size < length packet + size)
fragments_lem sequence size header packet h = (
  carried-fragments (fragments_needed (length packet) size) sequence
      (fragments_needed (length packet) size) size header 0 packet
      (fragments_needed_lem (length packet) size h).0,
  (fragments_needed_lem (length packet) size h).1,
)
