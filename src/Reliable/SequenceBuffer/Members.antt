-- ===== src/Reliable/SequenceBuffer/Members.antt =====
-- A valid sequence buffer as a set of sequence numbers: what `insert` adds, keeps and forgets.
use yojimbo_cmake.Common.{
  ℕ, ◌+◌, ◌%◌, ◌≤◌, ◌<◌, ◌≡◌, refl, sym, ◌∙◌, subst, ◌≢◌, ◌⊎◌, ◌↔◌, inl, inr, some, none, true,
  false, ==_iff, Bool-cases, arith, ℕ_discrete, get_or, set, get_or-set_self, get_or-set_ne,
}
use native.Mathlib.Nat.{mod-lt}
use yojimbo_cmake.Reliable.Sequence.{
  add16, sub16, distance, sequence_greater_than, sequence_less_than,
}
use yojimbo_cmake.Reliable.SequenceBuffer.{
  SequenceBuffer, empty_slot, oldest, remove_entries, advance, insert, claim_slot, exists,
  test_insert,
}
use yojimbo_cmake.Reliable.SequenceBuffer.Distances.{same_slot, distance_adds, fresh_slot}
use yojimbo_cmake.Reliable.SequenceBuffer.Slots.{
  slot, EmptyOr, remove_entries-SameShape, slot-remove_entries, remove_entries-keeps,
}
use yojimbo_cmake.Reliable.SequenceBuffer.Window.{IsValid, advance-IsValid}
use yojimbo_cmake.Reliable.SequenceBuffer.Preserved.{insert-IsValid, advance_near}

-- `q` is held by the buffer.
abbrev pub Holds {ℓ} : {A : Type ℓ} → SequenceBuffer A → ℕ → Type 0
Holds b q = exists b q ≡ true

pub Holds-iff {ℓ} :
    {A : Type ℓ} (b : SequenceBuffer A) (q : ℕ) → Holds b q ↔ (slot b (q % b.num_entries) ≡ q)
unfolding exists
Holds-iff b q = ==_iff _ q

module _ {ℓ} {A : Type ℓ} (b : SequenceBuffer A) (q t : ℕ) (v : IsValid b) (hq : q < 65536) where
  -- A held number that is still in the window after moving on to `q` is still held.
  moved_on-keeps :
      sequence_greater_than (add16 q 1) b.sequence ≡ true
      → t < 65536
      → distance t (sub16 b.sequence 1) < b.num_entries
      → distance t q < b.num_entries
      → slot (remove_entries b b.sequence q none) (t % b.num_entries) ≡ slot b (t % b.num_entries)
  moved_on-keeps g ht old new =
      remove_entries-keeps b b.sequence q none (t % b.num_entries) v.in_range hq short (λ j le e.
        fresh_slot b.sequence q t b.num_entries v.turns j v.in_range hq ht v.small v.divides apart.1
          short old new le e)
    where
      apart :
          (distance t q ≡ distance t (sub16 b.sequence 1) + 1 + distance b.sequence q)
          × (distance b.sequence q ≤ 32767)
      apart = distance_adds b.sequence q t v.in_range hq ht g (omega (arith, v.small))

      short : distance b.sequence q < b.num_entries
      short = omega (arith, apart.0)

  -- The number that a slot holds is in the window.
  holds-near :
      t < 65536 → slot b (t % b.num_entries) ≡ t → distance t (sub16 b.sequence 1) < b.num_entries
  holds-near ht e = elim (v.window (t % b.num_entries) (mod-lt t (omega (arith, v.several)))) [
    | inl p ↦ absurd (omega (arith, p, e))
    | inr w ↦ subst (λ x. distance x (sub16 b.sequence 1) < b.num_entries) e w.recent
  ]

  -- `advance` forgets a number exactly when it falls out of the window.
  advance-slot :
      t < 65536
      → slot b (t % b.num_entries) ≡ t
      → distance t (sub16 (advance b q).sequence 1) < b.num_entries
      → slot (advance b q) (t % b.num_entries) ≡ t
  unfolding advance
  advance-slot ht e near = elim (Bool-cases (sequence_greater_than (add16 q 1) b.sequence)) [
    | inl g ↦ rw g (moved_on-keeps g ht (holds-near ht e) (moved (rw g at near)) ∙ e)
    | inr g ↦ rw g e
  ]
    where
      moved : distance t (sub16 (add16 q 1) 1) < b.num_entries → distance t q < b.num_entries
      moved h = omega arith

module _ {ℓ} {A : Type ℓ} (b : SequenceBuffer A) (q : ℕ) where
  pub advance-SameEntries : (advance b q).num_entries ≡ b.num_entries
  unfolding advance
  advance-SameEntries = elim (Bool-cases (sequence_greater_than (add16 q 1) b.sequence)) [
    | inl g ↦ rw g (remove_entries-SameShape b b.sequence q none).same_entries
    | inr g ↦ rw g refl
  ]

  slot-advance : (i : ℕ) → EmptyOr (slot b i) (slot (advance b q) i)
  unfolding advance
  slot-advance i = elim (Bool-cases (sequence_greater_than (add16 q 1) b.sequence)) [
    | inl g ↦ rw g (slot-remove_entries b b.sequence q none i)
    | inr g ↦ rw g (inr refl)
  ]

  slot-claimed_self :
      IsValid (advance b q) → slot (claim_slot (advance b q) q).1 (q % b.num_entries) ≡ q
  slot-claimed_self v =
      subst
        (λ n.
          get_or (set (advance b q).entry_sequence (q % (advance b q).num_entries) q) (q % n)
            empty_slot
          ≡ q)
        advance-SameEntries
        (get_or-set_self (advance b q).entry_sequence _ q empty_slot
          (rw v.slots (mod-lt q (omega (arith, v.several)))))

  slot-claimed_ne :
      (t : ℕ)
      → t % b.num_entries ≢ q % b.num_entries
      → slot (claim_slot (advance b q) q).1 (t % b.num_entries)
        ≡ slot (advance b q) (t % b.num_entries)
  slot-claimed_ne t ne =
      get_or-set_ne (advance b q).entry_sequence _ _ q empty_slot
        (λ e. ne (sym (subst (λ n. q % n ≡ t % b.num_entries) advance-SameEntries e)))

  -- An insertion that is not refused is an advance and a claim.
  pub insert-eq-claim : test_insert b q ≡ true → insert b q ≡ claim_slot (advance b q) q
  unfolding insert test_insert
  insert-eq-claim h = elim (Bool-cases (sequence_less_than q (oldest b))) [
    | inl l ↦ cc (rw l at h)
    | inr l ↦ rw l refl
  ]

  -- A number that is too old for `test_insert` is refused, and the buffer stays as it is.
  pub insert_refused : test_insert b q ≡ false → insert b q ≡ (none, b)
  unfolding insert test_insert
  insert_refused h = elim (Bool-cases (sequence_less_than q (oldest b))) [
    | inl l ↦ rw l refl
    | inr l ↦ cc (rw l at h)
  ]

  claimed→ :
      IsValid b
      → q < 65536
      → (t : ℕ) → t < 65536
      → slot (claim_slot (advance b q) q).1 (t % b.num_entries) ≡ t
      → (t ≡ q) ⊎ (slot b (t % b.num_entries) ≡ t)
  claimed→ v hq t ht e = elim (ℕ_discrete (t % b.num_entries) (q % b.num_entries)) [
    | yes p ↦ inl (sym e ∙ rw p (slot-claimed_self (advance-IsValid b q v hq)))
    | no p ↦ inr (kept (slot-advance (t % b.num_entries)) (sym (slot-claimed_ne t p) ∙ e))
  ]
    where
      kept :
          EmptyOr (slot b (t % b.num_entries)) (slot (advance b q) (t % b.num_entries))
          → slot (advance b q) (t % b.num_entries) ≡ t
          → slot b (t % b.num_entries) ≡ t
      kept (inl p) e = absurd (omega arith)
      kept (inr p) e = sym p ∙ e

  claimed← :
      IsValid b
      → q < 65536
      → (t : ℕ) → t < 65536
      → sequence_less_than q (oldest b) ≡ false
      → slot b (t % b.num_entries) ≡ t
      → distance t (sub16 (advance b q).sequence 1) < b.num_entries
      → slot (claim_slot (advance b q) q).1 (t % b.num_entries) ≡ t
  claimed← v hq t ht l e near = elim (ℕ_discrete (t % b.num_entries) (q % b.num_entries)) [
    | yes p ↦
        subst (λ x. slot (claim_slot (advance b q) q).1 (x % b.num_entries) ≡ x) (sym (meets p))
          (slot-claimed_self valid)
    | no p ↦ slot-claimed_ne t p ∙ advance-slot b q t v hq ht e near
  ]
    where
      valid : IsValid (advance b q)
      valid = advance-IsValid b q v hq

      q_near : distance q (sub16 (advance b q).sequence 1) < b.num_entries
      q_near =
          subst (λ n. distance q (sub16 (advance b q).sequence 1) < n) advance-SameEntries
            (advance_near b q v hq l)

      meets : t % b.num_entries ≡ q % b.num_entries → t ≡ q
      meets =
          same_slot (sub16 (advance b q).sequence 1) b.num_entries v.turns t q (omega arith) v.small
            v.divides ht hq near q_near

  claimed_slot_iff :
      (t : ℕ)
      → Holds (claim_slot (advance b q) q).1 t
        ↔ (slot (claim_slot (advance b q) q).1 (t % b.num_entries) ≡ t)
  claimed_slot_iff t =
      subst
        (λ n.
          Holds (claim_slot (advance b q) q).1 t
          ↔ (slot (claim_slot (advance b q) q).1 (t % n) ≡ t))
        advance-SameEntries (Holds-iff (claim_slot (advance b q) q).1 t)

  -- What the buffer `c` holds, if `q` has been inserted.
  abbrev pub HoldsAfter : SequenceBuffer A → ℕ → Type 0
  HoldsAfter c t = (t ≡ q) ⊎ (Holds b t × (distance t (sub16 c.sequence 1) < b.num_entries))

  claim-Holds :
      IsValid b
      → q < 65536
      → sequence_less_than q (oldest b) ≡ false
      → IsValid (claim_slot (advance b q) q).1
      → (t : ℕ) → t < 65536
      → Holds (claim_slot (advance b q) q).1 t ↔ HoldsAfter (claim_slot (advance b q) q).1 t
  claim-Holds v hq l valid t ht = (there, back)
    where
      c : SequenceBuffer A
      c = (claim_slot (advance b q) q).1

      there : Holds c t → HoldsAfter c t
      there h = elim (claimed→ v hq t ht ((claimed_slot_iff t).0 h)) [
        | inl e ↦ inl e
        | inr e ↦ inr (
          (Holds-iff b t).1 e,
          subst (λ n. distance t (sub16 c.sequence 1) < n) advance-SameEntries
              (holds-near c q t valid hq ht ((Holds-iff c t).0 h)),
        )
      ]

      back : HoldsAfter c t → Holds c t
      back (inl e) = (claimed_slot_iff t).1 (
          subst (λ x. slot c (x % b.num_entries) ≡ x) (sym e)
            (slot-claimed_self (advance-IsValid b q v hq)))
      back (inr (h, near)) =
          (claimed_slot_iff t).1 (claimed← v hq t ht l ((Holds-iff b t).0 h) near)

  test_insert-not_stale : test_insert b q ≡ true → sequence_less_than q (oldest b) ≡ false
  unfolding test_insert
  test_insert-not_stale h = ground arith

  -- After an insertion that `test_insert` allows, the buffer holds the new number, and of the
  -- numbers that it held exactly those that are still among the `num_entries` newest.
  pub insert-Holds :
      IsValid b
      → q < 65536
      → test_insert b q ≡ true
      → (t : ℕ) → t < 65536
      → Holds (insert b q).1 t ↔ HoldsAfter (insert b q).1 t
  insert-Holds v hq h t ht =
      subst (λ r. IsValid r.1 → Holds r.1 t ↔ HoldsAfter r.1 t) (sym (insert-eq-claim h))
        (λ valid. claim-Holds v hq (test_insert-not_stale h) valid t ht) (insert-IsValid b q v hq)

next_is_newer : (s : ℕ) → s < 65536 → sequence_greater_than (add16 s 1) s ≡ true
unfolding sequence_greater_than
next_is_newer s h = ground arith

next_not_stale :
    (s n : ℕ) → s < 65536 → 1 < n → n < 32768 → sequence_less_than s (sub16 s n) ≡ false
unfolding sequence_less_than sequence_greater_than
next_not_stale s n h n1 small = ground arith

-- What inserting the next sequence number in order gives, in a buffer of less than 32768 entries.
pub record Next {ℓ} {A : Type ℓ} (b : SequenceBuffer A) (c : SequenceBuffer A) : Type 0 where
  pub valid : IsValid c
  pub moved : c.sequence ≡ add16 b.sequence 1
  pub same_entries : c.num_entries ≡ b.num_entries
  pub held : Holds c b.sequence

-- It is never refused.
pub insert-Next {ℓ} :
    {A : Type ℓ} (b : SequenceBuffer A)
    → IsValid b
    → b.num_entries < 32768
    → (i : ℕ) × (insert b b.sequence ≡ (some i, (insert b b.sequence).1))
      × Next b (insert b b.sequence).1
insert-Next b v small = (
  b.sequence % (advance b b.sequence).num_entries,
  rw eq refl,
  record {
    valid = insert-IsValid b b.sequence v v.in_range;
    moved = rw eq moved;
    same_entries = rw eq (advance-SameEntries b b.sequence);
    held = (insert-Holds b b.sequence v v.in_range taken b.sequence v.in_range).1 (inl refl);
  },
)
  where
    taken : test_insert b b.sequence ≡ true
    taken =
        unfold test_insert in
        rw (next_not_stale b.sequence b.num_entries v.in_range v.several small) refl

    eq : insert b b.sequence ≡ claim_slot (advance b b.sequence) b.sequence
    eq = insert-eq-claim b b.sequence taken

    moved : (advance b b.sequence).sequence ≡ add16 b.sequence 1
    moved = unfold advance in rw (next_is_newer b.sequence v.in_range) refl
