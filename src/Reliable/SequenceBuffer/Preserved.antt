-- ===== src/Reliable/SequenceBuffer/Preserved.antt =====
-- Every operation of a sequence buffer keeps its window invariant.
use yojimbo_cmake.Common.{
  ℕ, ◌*◌, ◌%◌, ◌≤◌, ◌<◌, ◌≡◌, refl, ◌∙◌, inl, inr, none, some, List, false, ◌==◌, Bool-cases, arith,
  ℕ_discrete, length, get_or, set, length-set, length-modify, length-replicate, get_or-set_self,
  get_or-set_default, get_or-set_ne, get_or-replicate,
}
use native.Mathlib.Nat.{mod-lt}
use yojimbo_cmake.Reliable.Sequence.{
  add16, sub16, distance, sequence_greater_than, sequence_less_than,
}
use yojimbo_cmake.Reliable.SequenceBuffer.{
  SequenceBuffer, empty_slot, oldest, create, reset, remove_entries, advance, insert,
  insert_with_cleanup, claim_slot, claim_cleaned, remove, remove_with_cleanup,
}
use yojimbo_cmake.Reliable.SequenceBuffer.Slots.{slot, SameShape, remove_entries-SameShape}
use yojimbo_cmake.Reliable.SequenceBuffer.Window.{IsValid, moved_on, advance-IsValid}

-- Claiming the slot of a sequence number in the window keeps the invariant.
claim_slot-IsValid {ℓ} :
    {A : Type ℓ} (b : SequenceBuffer A) (q : ℕ)
    → IsValid b
    → q < 65536
    → distance q (sub16 b.sequence 1) < b.num_entries
    → IsValid (claim_slot b q).1
claim_slot-IsValid b q v hq near = record {
  several = several;
  small = small;
  turns = turns;
  divides = divides;
  in_range = in_range;
  slots = length-set b.entry_sequence (q % b.num_entries) q ∙ slots;
  entries = entries;
  window = λ i h. elim (ℕ_discrete (q % b.num_entries) i) [
    | yes p ↦ inr (rw (← p, here) (record { is_sequence = hq; own_slot = refl; recent = near }))
    | no p ↦ rw (get_or-set_ne b.entry_sequence _ i q empty_slot p) (window i h)
  ];
}
  where
    open v use {several, small, turns, divides, in_range, slots, entries, window}

    here : get_or (set b.entry_sequence (q % b.num_entries) q) (q % b.num_entries) empty_slot ≡ q
    here = get_or-set_self b.entry_sequence _ q empty_slot (rw slots (mod-lt q (omega arith)))

not_stale :
    (s q n : ℕ)
    → s < 65536
    → q < 65536
    → 1 < n
    → n ≤ 32768
    → sequence_greater_than (add16 q 1) s ≡ false
    → sequence_less_than q (sub16 s n) ≡ false
    → distance q (sub16 s 1) < n
unfolding sequence_greater_than sequence_less_than
not_stale s q n hs hq hn small g l = ground arith

-- After `advance` to a sequence number that is not too old, it is in the window.
pub advance_near {ℓ} :
    {A : Type ℓ} (b : SequenceBuffer A) (q : ℕ)
    → IsValid b
    → q < 65536
    → sequence_less_than q (oldest b) ≡ false
    → distance q (sub16 (advance b q).sequence 1) < (advance b q).num_entries
unfolding advance
advance_near b q v h l = elim (Bool-cases (sequence_greater_than (add16 q 1) b.sequence)) [
  | inl g ↦ rw (g, shape.same_entries) (omega (arith, v.several))
  | inr g ↦ rw g (not_stale b.sequence q b.num_entries v.in_range h v.several v.small g l)
]
  where
    shape : SameShape b (remove_entries b b.sequence q none)
    shape = remove_entries-SameShape b b.sequence q none

-- `reliable_sequence_buffer_insert` keeps the window invariant, whether it takes the sequence
-- number or refuses it as too old.
pub insert-IsValid {ℓ} :
    {A : Type ℓ} (b : SequenceBuffer A) (q : ℕ) → IsValid b → q < 65536 → IsValid (insert b q).1
unfolding insert
insert-IsValid b q v h = elim (Bool-cases (sequence_less_than q (oldest b))) [
  | inl l ↦ rw l v
  | inr l ↦
      rw l (claim_slot-IsValid (advance b q) q (advance-IsValid b q v h) h (advance_near b q v h l))
]

pub create-IsValid {ℓ} :
    {A : Type ℓ} (n turns : ℕ) (zeroed : A)
    → 1 < n
    → n ≤ 32768
    → turns * n ≡ 65536
    → IsValid (create n zeroed)
unfolding create
create-IsValid n turns zeroed several small d = record {
  several = several;
  small = small;
  turns = turns;
  divides = d;
  in_range = omega arith;
  slots = length-replicate n empty_slot;
  entries = length-replicate n zeroed;
  window = λ i h. inl (get_or-replicate n empty_slot i empty_slot h);
}

pub reset-IsValid {ℓ} : {A : Type ℓ} (b : SequenceBuffer A) → IsValid b → IsValid (reset b)
unfolding reset
reset-IsValid b v = record {
  several = several;
  small = small;
  turns = turns;
  divides = divides;
  in_range = omega arith;
  slots = length-replicate b.num_entries empty_slot;
  entries = entries;
  window = λ i h. inl (get_or-replicate b.num_entries empty_slot i empty_slot h);
}
  where
    open v use {several, small, turns, divides, in_range, entries}

-- Changing entries, and not which slot holds what, keeps the invariant.
pub with_data-IsValid {ℓ} :
    {A : Type ℓ} (b : SequenceBuffer A) (xs : List A)
    → IsValid b
    → length xs ≡ length b.entry_data
    → IsValid (record b { entry_data = xs })
with_data-IsValid b xs v e = record {
  several = several;
  small = small;
  turns = turns;
  divides = divides;
  in_range = in_range;
  slots = slots;
  entries = e ∙ entries;
  window = window;
}
  where
    open v use {several, small, turns, divides, in_range, slots, entries, window}

pub remove-IsValid {ℓ} :
    {A : Type ℓ} (b : SequenceBuffer A) (q : ℕ) → IsValid b → IsValid (remove b q)
unfolding remove
remove-IsValid b q v = record {
  several = several;
  small = small;
  turns = turns;
  divides = divides;
  in_range = in_range;
  slots = length-set b.entry_sequence _ empty_slot ∙ slots;
  entries = entries;
  window = λ i h. elim (ℕ_discrete (q % b.num_entries) i) [
    | yes p ↦ inl (rw (← p) (get_or-set_default b.entry_sequence _ empty_slot))
    | no p ↦ rw (get_or-set_ne b.entry_sequence _ i empty_slot empty_slot p) (window i h)
  ];
}
  where
    open v use {several, small, turns, divides, in_range, slots, entries, window}

pub remove_with_cleanup-IsValid {ℓ} :
    {A : Type ℓ} (b : SequenceBuffer A) (q : ℕ) (cleanup : A → A)
    → IsValid b
    → IsValid (remove_with_cleanup b q cleanup)
unfolding remove_with_cleanup
remove_with_cleanup-IsValid b q cleanup v =
    elim (Bool-cases (slot b (q % b.num_entries) == empty_slot)) [
      | inl e ↦ rw e v
      | inr e ↦ rw e (
          unfold remove in
          with_data-IsValid (remove b q) _ (remove-IsValid b q v)
            (length-modify b.entry_data _ cleanup))
    ]

claim_cleaned-IsValid {ℓ} :
    {A : Type ℓ} (cleanup : A → A) (b : SequenceBuffer A) (q : ℕ)
    → IsValid b
    → q < 65536
    → distance q (sub16 b.sequence 1) < b.num_entries
    → IsValid (claim_cleaned cleanup b q).1
unfolding claim_cleaned
claim_cleaned-IsValid cleanup b q v h near =
    elim (Bool-cases (slot b (q % b.num_entries) == empty_slot)) [
      | inl e ↦ rw e (claim_slot-IsValid b q v h near)
      | inr e ↦ rw e (
          claim_slot-IsValid _ q (with_data-IsValid b _ v (length-modify b.entry_data _ cleanup)) h
            near)
    ]

-- `reliable_sequence_buffer_insert_with_cleanup` keeps the window invariant on every branch.
pub insert_with_cleanup-IsValid {ℓ} :
    {A : Type ℓ} (b : SequenceBuffer A) (q : ℕ) (cleanup : A → A)
    → IsValid b
    → q < 65536
    → IsValid (insert_with_cleanup b q cleanup).1
unfolding insert_with_cleanup
insert_with_cleanup-IsValid b q cleanup v h =
    elim (Bool-cases (sequence_greater_than (add16 q 1) b.sequence)) [
      | inl g ↦ rw g (
          claim_cleaned-IsValid cleanup _ q (moved_on b q (some cleanup) v h g) h (
            rw (remove_entries-SameShape b b.sequence q (some cleanup)).same_entries
              (omega (arith, v.several))))
      | inr g ↦ rw g (elim (Bool-cases (sequence_less_than q (oldest b))) [
        | inl l ↦ rw l v
        | inr l ↦ rw l (
            claim_cleaned-IsValid cleanup b q v h
              (not_stale b.sequence q b.num_entries v.in_range h v.several v.small g l))
      ])
    ]
