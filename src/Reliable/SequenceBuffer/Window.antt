-- ===== src/Reliable/SequenceBuffer/Window.antt =====
-- The window invariant of a sequence buffer: a slot holds nothing, or one of the `num_entries`
-- newest sequence numbers, at its own place; and how moving on to a new number keeps that.
use yojimbo_cmake.Common.{
  ℕ, ◌+◌, ◌-◌, ◌*◌, ◌%◌, ◌≤◌, ◌<◌, ◌≡◌, sym, ◌∙◌, subst, ◌⊎◌, inl, inr, Option, none, true,
  Bool-cases, arith, dec_lt, length,
}
use native.Mathlib.Nat.{add-mul-mod_self_right, add-mod_right}
use yojimbo_cmake.Reliable.Sequence.{add16, sub16, distance, sequence_greater_than}
use yojimbo_cmake.Reliable.SequenceBuffer.{
  SequenceBuffer, empty_slot, remove_entries, advance, advance_with_cleanup,
}
use yojimbo_cmake.Reliable.SequenceBuffer.Slots.{
  slot, SameShape, EmptyOr, remove_entries-SameShape, slot-remove_entries, remove_entries-empties,
}

-- `e` is one of the `n` newest sequence numbers before `sequence`, and belongs in slot `i`.
pub record InWindow (sequence n i e : ℕ) : Type 0 where
  pub is_sequence : e < 65536
  pub own_slot : e % n ≡ i
  pub recent : distance e (sub16 sequence 1) < n

pub record IsValid {ℓ} {A : Type ℓ} (b : SequenceBuffer A) : Type 0 where
  -- With a single entry a number 32768 steps old could pass for a new one.
  pub several : 1 < b.num_entries
  pub small : b.num_entries ≤ 32768
  -- The size divides 65536, so a sequence number keeps its slot when the numbers wrap around.
  pub turns : ℕ
  pub divides : turns * b.num_entries ≡ 65536
  pub in_range : b.sequence < 65536
  pub slots : length b.entry_sequence ≡ b.num_entries
  pub entries : length b.entry_data ≡ b.num_entries
  pub window :
      (i : ℕ)
      → i < b.num_entries
      → (slot b i ≡ empty_slot) ⊎ InWindow b.sequence b.num_entries i (slot b i)

-- Going round at 65536 does not change the slot.
pub mod_turn : (x y n turns : ℕ) → turns * n ≡ 65536 → x + 65536 ≡ y → x % n ≡ y % n
mod_turn x y n turns h e = rw (← e, ← h) (sym (add-mul-mod_self_right x turns n))

skipped_in_range :
    (s q e n : ℕ)
    → s < 65536
    → q < 65536
    → n ≤ 32768
    → sequence_greater_than (add16 q 1) s ≡ true
    → e < 65536
    → distance e (sub16 s 1) < n
    → n ≤ distance e q
    → n - 1 - distance e (sub16 s 1) ≤ distance s q
unfolding sequence_greater_than
skipped_in_range s q e n hs hq small g he recent far = ground arith

-- If moving on to `q` puts `e` out of the window, the slot of `e` is that of one of the sequence
-- numbers passed over.
passed_over :
    (s q e n i turns : ℕ)
    → s < 65536
    → q < 65536
    → 0 < n
    → n ≤ 32768
    → turns * n ≡ 65536
    → sequence_greater_than (add16 q 1) s ≡ true
    → InWindow s n i e
    → n ≤ distance e q
    → (j : ℕ) × (j ≤ distance s q) × ((s + j) % n ≡ i)
passed_over s q e n i turns hs hq hn small hd g w far =
    (j, skipped_in_range s q e n hs hq small g w.is_sequence w.recent far, place)
  where
    j : ℕ
    j = n - 1 - distance e (sub16 s 1)

    open w use {is_sequence, own_slot, recent}

    around : (s + j ≡ e + n) ⊎ (s + j + 65536 ≡ e + n)
    around = omega arith

    place : (s + j) % n ≡ i
    place = elim around [
      | inl p ↦ rw p (add-mod_right e n ∙ own_slot)
      | inr p ↦ mod_turn (s + j) (e + n) n turns hd p ∙ add-mod_right e n ∙ own_slot
    ]

abbrev SlotIsValid : ℕ → ℕ → ℕ → ℕ → Type 0
SlotIsValid sequence n i x = (x ≡ empty_slot) ⊎ InWindow sequence n i x

-- One slot, `x` before and `y` after moving on to `q`.
moved_on_slot :
    (s q n i turns x y : ℕ)
    → s < 65536
    → q < 65536
    → 0 < n
    → n ≤ 32768
    → turns * n ≡ 65536
    → sequence_greater_than (add16 q 1) s ≡ true
    → ((j : ℕ) → j ≤ distance s q → (s + j) % n ≡ i → y ≡ empty_slot)
    → SlotIsValid s n i x
    → EmptyOr x y
    → SlotIsValid (add16 q 1) n i y
moved_on_slot s q n i turns x y hs hq hn small hd g clears v (inl p) = inl p
moved_on_slot s q n i turns x y hs hq hn small hd g clears (inl e) (inr p) = inl (p ∙ e)
moved_on_slot s q n i turns x y hs hq hn small hd g clears (inr w) (inr p) =
    elim (dec_lt (distance x q) n) [
      | yes near ↦ inr (
          rw p
            (record { is_sequence = w.is_sequence; own_slot = w.own_slot; recent = omega arith }))
      | no far ↦ inl (skipped (passed_over s q x n i turns hs hq hn small hd g w (omega arith)))
    ]
  where
    skipped : (j : ℕ) × (j ≤ distance s q) × ((s + j) % n ≡ i) → y ≡ empty_slot
    skipped (j, le, e) = clears j le e

-- Moving on to `q` keeps the window, as the slots passed over are emptied.
pub moved_on {ℓ} :
    {A : Type ℓ} (b : SequenceBuffer A) (q : ℕ) (cleanup : Option (A → A))
    → IsValid b
    → q < 65536
    → sequence_greater_than (add16 q 1) b.sequence ≡ true
    → IsValid (record (remove_entries b b.sequence q cleanup) { sequence = add16 q 1 })
moved_on b q cleanup v hq g = record {
  several = rw shape.same_entries several;
  small = rw shape.same_entries small;
  turns = turns;
  divides = rw shape.same_entries divides;
  in_range = omega arith;
  slots = shape.same_slots ∙ slots ∙ sym shape.same_entries;
  entries = shape.same_data ∙ entries ∙ sym shape.same_entries;
  window = λ i h.
      subst (λ n. SlotIsValid (add16 q 1) n i (slot (remove_entries b b.sequence q cleanup) i))
        (sym shape.same_entries)
        (moved_on_slot b.sequence q b.num_entries i turns (slot b i) _ in_range hq (omega arith)
          small divides g
          (λ j le e.
            remove_entries-empties b b.sequence q cleanup j i in_range hq (omega arith) le e)
          (window i (rw shape.same_entries at h)) (slot-remove_entries b b.sequence q cleanup i));
}
  where
    open v use {several, small, turns, divides, in_range, slots, entries, window}

    shape : SameShape b (remove_entries b b.sequence q cleanup)
    shape = remove_entries-SameShape b b.sequence q cleanup

-- `advance` and `advance_with_cleanup` keep the invariant.
pub advance_with_cleanup-IsValid {ℓ} :
    {A : Type ℓ} (b : SequenceBuffer A) (q : ℕ) (cleanup : Option (A → A))
    → IsValid b
    → q < 65536
    → IsValid (advance_with_cleanup b q cleanup)
unfolding advance_with_cleanup
advance_with_cleanup-IsValid b q cleanup v h =
    elim (Bool-cases (sequence_greater_than (add16 q 1) b.sequence)) [
      | inl g ↦ rw g (moved_on b q cleanup v h g)
      | inr g ↦ rw g v
    ]

pub advance-IsValid {ℓ} :
    {A : Type ℓ} (b : SequenceBuffer A) (q : ℕ) → IsValid b → q < 65536 → IsValid (advance b q)
unfolding advance
advance-IsValid b q v h = elim (Bool-cases (sequence_greater_than (add16 q 1) b.sequence)) [
  | inl g ↦ rw g (moved_on b q none v h g)
  | inr g ↦ rw g v
]
