-- ===== src/Netcode/Replay/Accepted.antt =====
-- No sequence number gets through replay protection twice, and a new one always does.
use yojimbo_cmake.Common.{
  ℕ, ◌+◌, ◌%◌, ◌^◌, ◌<◌, ◌≤◌, ◌≡◌, sym, subst, ◌∙◌, ◌≢◌, ◌⊎◌, inl, inr, true, false, Bool-cases,
  List, [], ◌∷◌, ltb, if◌then◌else◌, length, All, arith, length-set, length-replicate,
  get_or-set_self, get_or-set_ne, get_or-replicate, ℕ_discrete,
}
use yojimbo_cmake.Netcode.Replay.{
  ReplayProtection, replay_protection_buffer_size, uint64_max, entry, reset, already_received,
  advance_sequence,
}

-- The entries are those of sequence numbers seen, none above the most recent.
pub record IsValid (r : ReplayProtection) : Type 0 where
  pub size : length r.received_packet ≡ replay_protection_buffer_size
  pub recent_in : r.most_recent_sequence < uint64_max
  pub bounded : (i : ℕ) → i < 256 → (entry r i ≡ uint64_max) ⊎ (entry r i ≤ r.most_recent_sequence)

pub reset-IsValid : IsValid reset
unfolding reset
reset-IsValid = record {
  size = length-replicate 256 uint64_max;
  recent_in = omega arith;
  bounded = λ i h. inl (get_or-replicate 256 uint64_max i uint64_max h);
}

entry-advance :
    (r : ReplayProtection) (q : ℕ)
    → length r.received_packet ≡ 256
    → entry (advance_sequence r q) (q % 256) ≡ q
unfolding advance_sequence
entry-advance r q size = get_or-set_self r.received_packet _ q uint64_max (rw size (omega arith))

entry-advance_self :
    (r : ReplayProtection) (q : ℕ) → IsValid r → entry (advance_sequence r q) (q % 256) ≡ q
entry-advance_self r q v = entry-advance r q v.size

entry-advance_ne :
    (r : ReplayProtection) (q i : ℕ) → q % 256 ≢ i → entry (advance_sequence r q) i ≡ entry r i
unfolding advance_sequence
entry-advance_ne r q i h = get_or-set_ne r.received_packet _ i q uint64_max h

recent-advance :
    (r : ReplayProtection) (q : ℕ)
    → (r.most_recent_sequence ≤ (advance_sequence r q).most_recent_sequence)
      × (q ≤ (advance_sequence r q).most_recent_sequence)
      × ((advance_sequence r q).most_recent_sequence
          ≡ (if ltb r.most_recent_sequence q then q else r.most_recent_sequence))
unfolding advance_sequence
recent-advance r q = ground arith

pub advance_sequence-IsValid :
    (r : ReplayProtection) (q : ℕ) → IsValid r → q < uint64_max → IsValid (advance_sequence r q)
advance_sequence-IsValid r q v h = record {
  size = unfold advance_sequence in length-set r.received_packet _ q ∙ v.size;
  recent_in = ground (arith, recent-advance r q, v.recent_in);
  bounded = λ i hi. elim (ℕ_discrete (q % 256) i) [
    | yes p ↦ inr (rw (← p, entry-advance_self r q v) (omega (arith, recent-advance r q)))
    | no p ↦ rw (entry-advance_ne r q i p) (keep (v.bounded i hi))
  ];
}
  where
    keep :
        {x : ℕ}
        → (x ≡ uint64_max) ⊎ (x ≤ r.most_recent_sequence)
        → (x ≡ uint64_max) ⊎ (x ≤ (advance_sequence r q).most_recent_sequence)
    keep (inl p) = inl p
    keep (inr p) = inr (omega (arith, recent-advance r q))

-- When a sequence number counts as received, in terms of its entry.
abbrev Received : ReplayProtection → ℕ → Type 0
Received r s =
    ((s + 256) % 2 ^ 64 ≤ r.most_recent_sequence)
    ⊎ ((entry r (s % 256) ≢ uint64_max) × (s ≤ entry r (s % 256)))

received→ : (r : ReplayProtection) (s : ℕ) → already_received r s ≡ true → Received r s
unfolding already_received
received→ r s h = ground arith

received← : (r : ReplayProtection) (s : ℕ) → Received r s → already_received r s ≡ true
unfolding already_received
received← r s (inl p) = ground arith
received← r s (inr p) = ground arith

fresh_above :
    (r : ReplayProtection) (q : ℕ)
    → already_received r q ≡ false
    → entry r (q % 256) ≢ uint64_max
    → entry r (q % 256) < q
unfolding already_received
fresh_above r q h ne = ground arith

-- What counts as received still does after another number is let through.
Received-keeps :
    (r : ReplayProtection) (s q : ℕ)
    → IsValid r
    → q < uint64_max
    → already_received r q ≡ false
    → Received r s
    → Received (advance_sequence r q) s
Received-keeps r s q v hq fresh (inl p) = inl (omega (arith, recent-advance r q))
Received-keeps r s q v hq fresh (inr (ne, le)) = elim (ℕ_discrete (q % 256) (s % 256)) [
  | no p ↦
      inr
        (subst (λ x. (x ≢ uint64_max) × (s ≤ x)) (sym (entry-advance_ne r q (s % 256) p)) (ne, le))
  | yes p ↦
      let kept : (entry r (q % 256) ≢ uint64_max) × (s ≤ entry r (q % 256)) =
        subst (λ j. (entry r j ≢ uint64_max) × (s ≤ entry r j)) (sym p) (ne, le) in
      inr (
        subst
          (λ j.
            (entry (advance_sequence r q) j ≢ uint64_max) × (s ≤ entry (advance_sequence r q) j))
          p
          (rw (entry-advance_self r q v)
            (omega arith, omega (arith, kept.1, fresh_above r q fresh kept.0))))
]

Received-self :
    (r : ReplayProtection) (q : ℕ) → IsValid r → q < uint64_max → Received (advance_sequence r q) q
Received-self r q v h = inr (rw (entry-advance_self r q v) (omega arith, omega arith))

-- The receiver: a sequence number that has not been received is let through, and noted. The result
-- is the numbers that are let through, in order, of those that arrive.
pub let_through : ReplayProtection → List ℕ → List ℕ
let_through r [] = []
let_through r (q ∷ qs) =
    let accepted = q ∷ let_through (advance_sequence r q) qs in
    let refused = let_through r qs in if already_received r q then refused else accepted

-- No element of the list is `q`.
abbrev pub Misses : ℕ → List ℕ → Type 0
Misses q qs = All (λ s. s ≢ q) qs

abbrev pub Distinct : List ℕ → Type 0
Distinct [] = Unit {0}
Distinct (q ∷ qs) = Misses q qs × Distinct qs

abbrev pub AllSequences : List ℕ → Type 0
AllSequences qs = All (λ q. q < uint64_max) qs

Received-missed :
    (qs : List ℕ) (r : ReplayProtection) (q : ℕ)
    → IsValid r
    → AllSequences qs
    → Received r q
    → Misses q (let_through r qs)
unfolding let_through
Received-missed [] r q v h rec = tt
Received-missed (s ∷ qs) r q v (hs, h) rec = elim (Bool-cases (already_received r s)) [
  | inl a ↦ rw a (Received-missed qs r q v h rec)
  | inr a ↦ rw a (
    other a,
    Received-missed qs (advance_sequence r s) q (advance_sequence-IsValid r s v hs) h
        (Received-keeps r q s v hs a rec),
  )
]
  where
    other : already_received r s ≡ false → s ≢ q
    other a e = cc (rw (sym e) at (received← r q rec))

-- However sequence numbers below UINT64_MAX arrive, repeated or out of order, none is let through
-- twice.
pub let_through-Distinct :
    (qs : List ℕ) (r : ReplayProtection) → IsValid r → AllSequences qs → Distinct (let_through r qs)
unfolding let_through
let_through-Distinct [] r v h = tt
let_through-Distinct (q ∷ qs) r v (hq, h) = elim (Bool-cases (already_received r q)) [
  | inl a ↦ rw a (let_through-Distinct qs r v h)
  | inr a ↦ rw a (
    Received-missed qs (advance_sequence r q) q (advance_sequence-IsValid r q v hq) h
        (Received-self r q v hq),
    let_through-Distinct qs (advance_sequence r q) (advance_sequence-IsValid r q v hq) h,
  )
]

-- A number above all that have been received is let through, up to the last 256 of the range, and
-- one that lies 256 or more below the most recent is not.
pub already_received_window :
    (r : ReplayProtection) (q : ℕ)
    → IsValid r
    → q + 256 < 2 ^ 64
    → (r.most_recent_sequence < q → already_received r q ≡ false)
      × (q + 256 ≤ r.most_recent_sequence → already_received r q ≡ true)
unfolding already_received
already_received_window r q v h = (
  λ newer. elim (v.bounded (q % 256) (omega arith)) [ inl e ↦ ground arith | inr e ↦ ground arith ],
  λ older. ground arith,
)

-- A number that has just been noted counts as received.
pub already_received-advance :
    (r : ReplayProtection) (q : ℕ)
    → length r.received_packet ≡ 256
    → already_received (advance_sequence r q) q ≡ true
unfolding already_received
already_received-advance r q size = rw (entry-advance r q size) (grind (arith, recent-advance r q))

pub length-advance :
    (r : ReplayProtection) (q : ℕ)
    → length r.received_packet ≡ 256
    → length (advance_sequence r q).received_packet ≡ 256
unfolding advance_sequence
length-advance r q size = length-set r.received_packet (q % 256) q ∙ size
