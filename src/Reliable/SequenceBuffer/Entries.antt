-- ===== src/Reliable/SequenceBuffer/Entries.antt =====
-- What a cleanup keeps of every entry, the operations that run it keep.
use yojimbo_cmake.Common.{
  ℕ, zero, suc, ◌+◌, ◌-◌, ◌%◌, Bool, true, false, Bool-cases, inl, inr, some, ltb, ◌==◌,
  if◌then◌else◌, get_or, modify-keeps,
}
use yojimbo_cmake.Reliable.Sequence.{add16, sequence_greater_than, sequence_less_than}
use yojimbo_cmake.Reliable.SequenceBuffer.{
  SequenceBuffer, empty_slot, clear_slot, clear_range, clear_all, oldest, remove_entries,
  advance_with_cleanup, claim_cleaned, insert_with_cleanup, remove_with_cleanup,
}

module _ {A : Type 0} (P : A → Type 0) (d : A) where
  abbrev pub Each : SequenceBuffer A → Type 0
  Each b = (i : ℕ) → P (get_or b.entry_data i d)

  Each-if : (t : Bool) (b b' : SequenceBuffer A) → Each b → Each b' → Each (if t then b else b')
  Each-if true b b' h k = h
  Each-if false b b' h k = k

  module _ (f : A → A) (k : (c : A) → P c → P (f c)) where
    clear_slot-Each : (b : SequenceBuffer A) (i : ℕ) → Each b → Each (clear_slot (some f) b i)
    unfolding clear_slot
    clear_slot-Each b i h j = modify-keeps P b.entry_data i j f d k (h j)

    clear_range-Each :
        (n : ℕ) (b : SequenceBuffer A) (s : ℕ) → Each b → Each (clear_range n (some f) b s)
    unfolding clear_range
    clear_range-Each zero b s h = h
    clear_range-Each (suc n) b s h =
        clear_range-Each n (clear_slot (some f) b (s % b.num_entries)) (s + 1)
          (clear_slot-Each b (s % b.num_entries) h)

    clear_all-Each :
        (n : ℕ) (b : SequenceBuffer A) (i : ℕ) → Each b → Each (clear_all n (some f) b i)
    unfolding clear_all
    clear_all-Each zero b i h = h
    clear_all-Each (suc n) b i h =
        clear_all-Each n (clear_slot (some f) b i) (i + 1) (clear_slot-Each b i h)

    remove_entries-Each :
        (b : SequenceBuffer A) (start finish : ℕ)
        → Each b
        → Each (remove_entries b start finish (some f))
    unfolding remove_entries
    remove_entries-Each b start finish h =
        let finish' : ℕ = if ltb finish start then finish + 65536 else finish in
        Each-if (ltb (finish' - start) b.num_entries) _ _
          (clear_range-Each (finish' - start + 1) b start h) (clear_all-Each b.num_entries b 0 h)

    pub advance_with_cleanup-Each :
        (b : SequenceBuffer A) (sequence : ℕ)
        → Each b
        → Each (advance_with_cleanup b sequence (some f))
    unfolding advance_with_cleanup
    advance_with_cleanup-Each b sequence h =
        Each-if (sequence_greater_than (add16 sequence 1) b.sequence) _ _
          (remove_entries-Each b b.sequence sequence h) h

    claim_cleaned-Each :
        (b : SequenceBuffer A) (sequence : ℕ) → Each b → Each (claim_cleaned f b sequence).1
    unfolding claim_cleaned
    claim_cleaned-Each b sequence h =
        elim (Bool-cases
          (get_or b.entry_sequence (sequence % b.num_entries) empty_slot == empty_slot)) [
            | inl e ↦ rw e h
            | inr e ↦
                rw e (λ j. modify-keeps P b.entry_data (sequence % b.num_entries) j f d k (h j))
          ]

    pub insert_with_cleanup-Each :
        (b : SequenceBuffer A) (sequence : ℕ) → Each b → Each (insert_with_cleanup b sequence f).1
    unfolding insert_with_cleanup
    insert_with_cleanup-Each b sequence h =
        elim (Bool-cases (sequence_greater_than (add16 sequence 1) b.sequence)) [
          | inl e ↦
              rw e (claim_cleaned-Each _ sequence (remove_entries-Each b b.sequence sequence h))
          | inr e ↦ elim (Bool-cases (sequence_less_than sequence (oldest b))) [
            | inl e' ↦ rw (e, e') h
            | inr e' ↦ rw (e, e') (claim_cleaned-Each b sequence h)
          ]
        ]

    pub remove_with_cleanup-Each :
        (b : SequenceBuffer A) (sequence : ℕ) → Each b → Each (remove_with_cleanup b sequence f)
    unfolding remove_with_cleanup
    remove_with_cleanup-Each b sequence h =
        Each-if (get_or b.entry_sequence (sequence % b.num_entries) empty_slot == empty_slot) _ _ h
          (λ j. modify-keeps P b.entry_data (sequence % b.num_entries) j f d k (h j))
