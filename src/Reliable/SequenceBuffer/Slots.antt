-- ===== src/Reliable/SequenceBuffer/Slots.antt =====
-- What `remove_entries` does to the slots of a sequence buffer: which it empties, and that it
-- leaves every other slot, the counters and the sizes alone.
use yojimbo_cmake.Common.{
  ℕ, zero, suc, ◌+◌, ◌-◌, ◌%◌, ◌≤◌, ◌<◌, ◌≡◌, refl, ◌∙◌, ap, ◌≢◌, ◌⊎◌, inl, inr, Option, none, some,
  List, ltb, Bool-cases, if◌then◌else◌, arith, ℕ_discrete, length, get_or, length-set,
  length-modify, get_or-set_default, get_or-set_ne,
}
use native.Mathlib.Nat.{mod-lt, add-zero}
use yojimbo_cmake.Reliable.Sequence.{distance}
use yojimbo_cmake.Reliable.SequenceBuffer.{
  SequenceBuffer, empty_slot, run_cleanup, clear_slot, clear_range, clear_all, remove_entries,
}

-- The `entry_sequence` of slot `i`.
abbrev pub slot {ℓ} : {A : Type ℓ} → SequenceBuffer A → ℕ → ℕ
slot b i = get_or b.entry_sequence i empty_slot

-- `y` is `x`, or it is emptied.
abbrev pub EmptyOr : ℕ → ℕ → Type 0
EmptyOr x y = (y ≡ empty_slot) ⊎ (y ≡ x)

EmptyOr-trans : {x y z : ℕ} → EmptyOr x y → EmptyOr y z → EmptyOr x z
EmptyOr-trans (inl p) (inl q) = inl q
EmptyOr-trans (inl p) (inr q) = inl (q ∙ p)
EmptyOr-trans (inr p) (inl q) = inl q
EmptyOr-trans (inr p) (inr q) = inr (q ∙ p)

EmptyOr-empty : {x y : ℕ} → EmptyOr x y → x ≡ empty_slot → y ≡ empty_slot
EmptyOr-empty (inl p) e = p
EmptyOr-empty (inr p) e = p ∙ e

-- The part of a buffer that removing entries leaves alone.
pub record SameShape {ℓ} {A : Type ℓ} (b c : SequenceBuffer A) : Type 0 where
  pub same_sequence : c.sequence ≡ b.sequence
  pub same_entries : c.num_entries ≡ b.num_entries
  pub same_slots : length c.entry_sequence ≡ length b.entry_sequence
  pub same_data : length c.entry_data ≡ length b.entry_data

module _ {ℓ} {A : Type ℓ} where
  pub SameShape-refl : (b : SequenceBuffer A) → SameShape b b
  SameShape-refl b = record {
    same_sequence = refl;
    same_entries = refl;
    same_slots = refl;
    same_data = refl;
  }

  pub SameShape-trans : {b c d : SequenceBuffer A} → SameShape b c → SameShape c d → SameShape b d
  SameShape-trans p q = record {
    same_sequence = q.same_sequence ∙ p.same_sequence;
    same_entries = q.same_entries ∙ p.same_entries;
    same_slots = q.same_slots ∙ p.same_slots;
    same_data = q.same_data ∙ p.same_data;
  }

  length-run_cleanup :
      (cleanup : Option (A → A)) (xs : List A) (i : ℕ)
      → length (run_cleanup cleanup xs i) ≡ length xs
  length-run_cleanup none xs i = refl
  length-run_cleanup (some f) xs i = length-modify xs i f

  clear_slot-SameShape :
      (cleanup : Option (A → A)) (b : SequenceBuffer A) (i : ℕ)
      → SameShape b (clear_slot cleanup b i)
  unfolding clear_slot
  clear_slot-SameShape cleanup b i = record {
    same_sequence = refl;
    same_entries = refl;
    same_slots = length-set b.entry_sequence i empty_slot;
    same_data = length-run_cleanup cleanup b.entry_data i;
  }

  pub slot-clear_slot_self :
      (cleanup : Option (A → A)) (b : SequenceBuffer A) (i : ℕ)
      → slot (clear_slot cleanup b i) i ≡ empty_slot
  unfolding clear_slot
  slot-clear_slot_self cleanup b i = get_or-set_default b.entry_sequence i empty_slot

  pub slot-clear_slot_ne :
      (cleanup : Option (A → A)) (b : SequenceBuffer A) (i j : ℕ)
      → i ≢ j
      → slot (clear_slot cleanup b i) j ≡ slot b j
  unfolding clear_slot
  slot-clear_slot_ne cleanup b i j h = get_or-set_ne b.entry_sequence i j empty_slot empty_slot h

  -- A slot is emptied or left alone.
  slot-clear_slot :
      (cleanup : Option (A → A)) (b : SequenceBuffer A) (i j : ℕ)
      → EmptyOr (slot b j) (slot (clear_slot cleanup b i) j)
  slot-clear_slot cleanup b i j = elim (ℕ_discrete i j) [
    | yes p ↦ inl (rw p (slot-clear_slot_self cleanup b j))
    | no p ↦ inr (slot-clear_slot_ne cleanup b i j p)
  ]

  clear_range-SameShape :
      (m : ℕ) (cleanup : Option (A → A)) (b : SequenceBuffer A) (s : ℕ)
      → SameShape b (clear_range m cleanup b s)
  unfolding clear_range
  clear_range-SameShape zero cleanup b s = SameShape-refl b
  clear_range-SameShape (suc m) cleanup b s =
      SameShape-trans (clear_slot-SameShape cleanup b (s % b.num_entries))
        (clear_range-SameShape m cleanup (clear_slot cleanup b (s % b.num_entries)) (s + 1))

  clear_all-SameShape :
      (m : ℕ) (cleanup : Option (A → A)) (b : SequenceBuffer A) (i : ℕ)
      → SameShape b (clear_all m cleanup b i)
  unfolding clear_all
  clear_all-SameShape zero cleanup b i = SameShape-refl b
  clear_all-SameShape (suc m) cleanup b i =
      SameShape-trans (clear_slot-SameShape cleanup b i)
        (clear_all-SameShape m cleanup (clear_slot cleanup b i) (i + 1))

  slot-clear_range :
      (m : ℕ) (cleanup : Option (A → A)) (b : SequenceBuffer A) (s i : ℕ)
      → EmptyOr (slot b i) (slot (clear_range m cleanup b s) i)
  unfolding clear_range
  slot-clear_range zero cleanup b s i = inr refl
  slot-clear_range (suc m) cleanup b s i =
      EmptyOr-trans (slot-clear_slot cleanup b (s % b.num_entries) i)
        (slot-clear_range m cleanup (clear_slot cleanup b (s % b.num_entries)) (s + 1) i)

  slot-clear_all :
      (m : ℕ) (cleanup : Option (A → A)) (b : SequenceBuffer A) (s i : ℕ)
      → EmptyOr (slot b i) (slot (clear_all m cleanup b s) i)
  unfolding clear_all
  slot-clear_all zero cleanup b s i = inr refl
  slot-clear_all (suc m) cleanup b s i =
      EmptyOr-trans (slot-clear_slot cleanup b s i)
        (slot-clear_all m cleanup (clear_slot cleanup b s) (s + 1) i)

  pub num_entries-clear_slot :
      (cleanup : Option (A → A)) (b : SequenceBuffer A) (i : ℕ)
      → (clear_slot cleanup b i).num_entries ≡ b.num_entries
  num_entries-clear_slot cleanup b i = (clear_slot-SameShape cleanup b i).same_entries

  -- Round `j` of the range empties the slot of its sequence number.
  clear_range-empties :
      (m : ℕ) (cleanup : Option (A → A)) (b : SequenceBuffer A) (s j i : ℕ)
      → j < m
      → (s + j) % b.num_entries ≡ i
      → slot (clear_range m cleanup b s) i ≡ empty_slot
  unfolding clear_range
  clear_range-empties zero cleanup b s j i h e = absurd (omega arith)
  clear_range-empties (suc m) cleanup b s zero i h e =
      let here : s % b.num_entries ≡ i = rw add-zero at e in
      EmptyOr-empty
        (slot-clear_range m cleanup (clear_slot cleanup b (s % b.num_entries)) (s + 1) i)
        (rw here (slot-clear_slot_self cleanup b i))
  clear_range-empties (suc m) cleanup b s (suc j) i h e =
      clear_range-empties m cleanup (clear_slot cleanup b (s % b.num_entries)) (s + 1) j i
        (omega arith) (rw num_entries-clear_slot (ap (λ t. t % b.num_entries) shift ∙ e))
    where
      shift : s + 1 + j ≡ s + suc j
      shift = omega arith

  -- A slot that is none of the range's keeps its sequence number.
  clear_range-keeps :
      (m : ℕ) (cleanup : Option (A → A)) (b : SequenceBuffer A) (s i : ℕ)
      → ((j : ℕ) → j < m → (s + j) % b.num_entries ≢ i)
      → slot (clear_range m cleanup b s) i ≡ slot b i
  unfolding clear_range
  clear_range-keeps zero cleanup b s i apart = refl
  clear_range-keeps (suc m) cleanup b s i apart =
      clear_range-keeps m cleanup (clear_slot cleanup b (s % b.num_entries)) (s + 1) i
        (λ j h. rw (num_entries-clear_slot, next j) (apart (suc j) (omega arith)))
      ∙ slot-clear_slot_ne cleanup b (s % b.num_entries) i
          (rw (add-zero s) at (apart 0 (omega arith)))
    where
      next : (j : ℕ) → s + 1 + j ≡ s + suc j
      next j = omega arith

  clear_all-empties :
      (m : ℕ) (cleanup : Option (A → A)) (b : SequenceBuffer A) (s i : ℕ)
      → s ≤ i
      → i < s + m
      → slot (clear_all m cleanup b s) i ≡ empty_slot
  unfolding clear_all
  clear_all-empties zero cleanup b s i h k = absurd (omega arith)
  clear_all-empties (suc m) cleanup b s i h k = elim (ℕ_discrete s i) [
    | yes p ↦
        EmptyOr-empty (slot-clear_all m cleanup (clear_slot cleanup b s) (s + 1) i)
          (rw p (slot-clear_slot_self cleanup b i))
    | no p ↦
        clear_all-empties m cleanup (clear_slot cleanup b s) (s + 1) i (omega arith) (omega arith)
  ]

  module _ (b : SequenceBuffer A) (start finish : ℕ) (cleanup : Option (A → A)) where
    pub remove_entries-SameShape : SameShape b (remove_entries b start finish cleanup)
    unfolding remove_entries
    remove_entries-SameShape = elim (Bool-cases (ltb (last - start) b.num_entries)) [
      | inl e ↦ rw e (clear_range-SameShape (last - start + 1) cleanup b start)
      | inr e ↦ rw e (clear_all-SameShape b.num_entries cleanup b 0)
    ]
      where
        last : ℕ
        last = if ltb finish start then finish + 65536 else finish

    pub slot-remove_entries :
        (i : ℕ) → EmptyOr (slot b i) (slot (remove_entries b start finish cleanup) i)
    unfolding remove_entries
    slot-remove_entries i = elim (Bool-cases (ltb (last - start) b.num_entries)) [
      | inl e ↦ rw e (slot-clear_range (last - start + 1) cleanup b start i)
      | inr e ↦ rw e (slot-clear_all b.num_entries cleanup b 0 i)
    ]
      where
        last : ℕ
        last = if ltb finish start then finish + 65536 else finish

    -- The slot of every sequence number from `start` to `finish` is emptied.
    pub remove_entries-empties :
        (j i : ℕ)
        → start < 65536
        → finish < 65536
        → 0 < b.num_entries
        → j ≤ distance start finish
        → (start + j) % b.num_entries ≡ i
        → slot (remove_entries b start finish cleanup) i ≡ empty_slot
    unfolding remove_entries
    remove_entries-empties j i hs hf hn hj e =
        elim (Bool-cases (ltb (last - start) b.num_entries)) [
          | inl t ↦
              rw t (clear_range-empties (last - start + 1) cleanup b start j i (ground arith) e)
          | inr t ↦ rw t (
              clear_all-empties b.num_entries cleanup b 0 i (omega arith)
                (rw (← e) (omega (arith, mod-lt (start + j) hn))))
        ]
      where
        last : ℕ
        last = if ltb finish start then finish + 65536 else finish

    -- Where the range is shorter than the buffer, no other slot is emptied.
    pub remove_entries-keeps :
        (i : ℕ)
        → start < 65536
        → finish < 65536
        → distance start finish < b.num_entries
        → ((j : ℕ) → j ≤ distance start finish → (start + j) % b.num_entries ≢ i)
        → slot (remove_entries b start finish cleanup) i ≡ slot b i
    unfolding remove_entries
    remove_entries-keeps i hs hf short apart =
        elim (Bool-cases (ltb (last - start) b.num_entries)) [
          | inl t ↦ rw t (
              clear_range-keeps (last - start + 1) cleanup b start i
                (λ j h. apart j (ground arith)))
          | inr t ↦ absurd (ground arith)
        ]
      where
        last : ℕ
        last = if ltb finish start then finish + 65536 else finish
