-- ===== src/Reliable/SequenceBuffer.antt =====
-- reliable/reliable.c: `struct reliable_sequence_buffer_t`, a ring of entries indexed by sequence
-- number, and its operations. An entry pointer is the index of its slot, NULL is `none`.
pub mod Slots
pub mod Window
pub mod Preserved
pub mod Distances
pub mod Members
pub mod AckBits
pub mod Entries
mod Tests
use yojimbo_cmake.Common.{
  ℕ, zero, suc, ◌+◌, ◌-◌, ◌*◌, ◌%◌, ◌^◌, Bool, true, false, Option, none, some, List, ltb, ◌==◌,
  if◌then◌else◌, get_or, set, modify, replicate, bit_or,
}
use yojimbo_cmake.Reliable.Sequence.{add16, sub16, sequence_greater_than, sequence_less_than}

-- 0xFFFFFFFF, the `entry_sequence` of a slot that holds nothing
abbrev pub empty_slot : ℕ
empty_slot = 0xFFFFFFFF

-- The allocator fields are left out; `entry_data` holds the entries themselves, not their bytes.
pub record SequenceBuffer {ℓ} (A : Type ℓ) : Type ℓ where
  pub sequence : ℕ
  pub num_entries : ℕ
  pub entry_sequence : List ℕ
  pub entry_data : List A

module _ {ℓ} {A : Type ℓ} where
  -- `zeroed` is an entry whose bytes are all 0.
  unfoldable pub create : ℕ → A → SequenceBuffer A
  create num_entries zeroed = record {
    sequence = 0;
    num_entries = num_entries;
    entry_sequence = replicate num_entries empty_slot;
    entry_data = replicate num_entries zeroed;
  }

  unfoldable pub reset : SequenceBuffer A → SequenceBuffer A
  reset b = record b { sequence = 0; entry_sequence = replicate b.num_entries empty_slot }

  -- What a cleanup function, or NULL, does to the entry in a slot.
  abbrev pub run_cleanup : Option (A → A) → List A → ℕ → List A
  run_cleanup none xs i = xs
  run_cleanup (some f) xs i = modify xs i f

  -- One round of either loop of `remove_entries`.
  pub clear_slot : Option (A → A) → SequenceBuffer A → ℕ → SequenceBuffer A
  clear_slot cleanup b i = record b {
    entry_sequence = set b.entry_sequence i empty_slot;
    entry_data = run_cleanup cleanup b.entry_data i;
  }

  -- for ( sequence = s; ...; ++sequence ) over as many rounds as the first argument says
  pub clear_range : ℕ → Option (A → A) → SequenceBuffer A → ℕ → SequenceBuffer A
  clear_range zero cleanup b s = b
  clear_range (suc rounds) cleanup b s =
      clear_range rounds cleanup (clear_slot cleanup b (s % b.num_entries)) (s + 1)

  -- for ( i = 0; i < num_entries; ++i ), the first argument being the rounds left
  pub clear_all : ℕ → Option (A → A) → SequenceBuffer A → ℕ → SequenceBuffer A
  clear_all zero cleanup b i = b
  clear_all (suc rounds) cleanup b i = clear_all rounds cleanup (clear_slot cleanup b i) (i + 1)

  pub remove_entries : SequenceBuffer A → ℕ → ℕ → Option (A → A) → SequenceBuffer A
  remove_entries b start finish cleanup =
      let finish' = if ltb finish start then finish + 65536 else finish in
      if ltb (finish' - start) b.num_entries
      then clear_range (finish' - start + 1) cleanup b start
      else clear_all b.num_entries cleanup b 0

  -- The oldest sequence number that can still be inserted.
  abbrev pub oldest : SequenceBuffer A → ℕ
  oldest b = sub16 b.sequence b.num_entries

  unfoldable pub test_insert : SequenceBuffer A → ℕ → Bool
  test_insert b sequence = if sequence_less_than sequence (oldest b) then false else true

  unfoldable pub advance_with_cleanup : SequenceBuffer A → ℕ → Option (A → A) → SequenceBuffer A
  advance_with_cleanup b sequence cleanup =
      if sequence_greater_than (add16 sequence 1) b.sequence
      then record (remove_entries b b.sequence sequence cleanup) { sequence = add16 sequence 1 }
      else b

  unfoldable pub advance : SequenceBuffer A → ℕ → SequenceBuffer A
  advance b sequence =
      if sequence_greater_than (add16 sequence 1) b.sequence
      then record (remove_entries b b.sequence sequence none) { sequence = add16 sequence 1 }
      else b

  -- The last two lines of both insertions.
  abbrev pub claim_slot : SequenceBuffer A → ℕ → Option ℕ × SequenceBuffer A
  claim_slot b sequence =
      let index = sequence % b.num_entries in
      (some index, record b { entry_sequence = set b.entry_sequence index sequence })

  pub insert : SequenceBuffer A → ℕ → Option ℕ × SequenceBuffer A
  unfolding advance
  insert b sequence =
      if sequence_less_than sequence (oldest b)
      then (none, b)
      else claim_slot (advance b sequence) sequence

  -- The last lines of `insert_with_cleanup`, where a slot that is taken is cleaned up first.
  claim_cleaned : (A → A) → SequenceBuffer A → ℕ → Option ℕ × SequenceBuffer A
  claim_cleaned cleanup b sequence =
      let index = sequence % b.num_entries in
      if get_or b.entry_sequence index empty_slot == empty_slot
      then claim_slot b sequence
      else claim_slot (record b { entry_data = modify b.entry_data index cleanup }) sequence

  pub insert_with_cleanup : SequenceBuffer A → ℕ → (A → A) → Option ℕ × SequenceBuffer A
  insert_with_cleanup b sequence cleanup =
      if sequence_greater_than (add16 sequence 1) b.sequence
      then claim_cleaned cleanup
          (record (remove_entries b b.sequence sequence (some cleanup)) {
            sequence = add16 sequence 1;
          })
          sequence
      else if sequence_less_than sequence (oldest b)
      then (none, b)
      else claim_cleaned cleanup b sequence

  pub remove : SequenceBuffer A → ℕ → SequenceBuffer A
  remove b sequence = record b {
    entry_sequence = set b.entry_sequence (sequence % b.num_entries) empty_slot;
  }

  pub remove_with_cleanup : SequenceBuffer A → ℕ → (A → A) → SequenceBuffer A
  remove_with_cleanup b sequence cleanup =
      let index = sequence % b.num_entries in
      if get_or b.entry_sequence index empty_slot == empty_slot then b else record b {
        entry_sequence = set b.entry_sequence index empty_slot;
        entry_data = modify b.entry_data index cleanup;
      }

  unfoldable pub available : SequenceBuffer A → ℕ → Bool
  available b sequence = get_or b.entry_sequence (sequence % b.num_entries) empty_slot == empty_slot

  unfoldable pub exists : SequenceBuffer A → ℕ → Bool
  exists b sequence = get_or b.entry_sequence (sequence % b.num_entries) empty_slot == sequence

  unfoldable pub find : SequenceBuffer A → ℕ → Option ℕ
  find b sequence =
      let index = sequence % b.num_entries in
      if get_or b.entry_sequence index empty_slot == sequence then some index else none

  unfoldable pub at_index : SequenceBuffer A → ℕ → Option ℕ
  at_index b index =
      if get_or b.entry_sequence index empty_slot == empty_slot then none else some index

  -- The loop of `generate_ack_bits`: `rounds` rounds are left, from `i` on.
  ack_bits_loop : ℕ → SequenceBuffer A → ℕ → ℕ → ℕ → ℕ → ℕ
  ack_bits_loop zero b ack i mask bits = bits
  ack_bits_loop (suc rounds) b ack i mask bits =
      ack_bits_loop rounds b ack (i + 1) (mask * 2 % 2 ^ 32)
        (if exists b (sub16 ack i) then bit_or bits mask else bits)

  -- The pair that goes out through `ack` and `ack_bits`.
  pub generate_ack_bits : SequenceBuffer A → ℕ × ℕ
  generate_ack_bits b = let ack = sub16 b.sequence 1 in (ack, ack_bits_loop 32 b ack 0 1 0)
