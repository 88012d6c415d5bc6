-- ===== src/Reliable/SequenceBuffer/Tests.antt =====
-- Runs of the sequence buffer of reliable/reliable.c on small buffers.
use yojimbo_cmake.Common.{
  ℕ, ◌%◌, ◌/◌, ◌^◌, ◌<◌, ◌≡◌, ◌↔◌, refl, subst, true, false, [], ◌∷◌, if◌then◌else◌, arith,
}
use yojimbo_cmake.Reliable.Sequence.{sub16}
use yojimbo_cmake.Reliable.SequenceBuffer.{
  SequenceBuffer, empty_slot, create, insert, test_insert, exists, generate_ack_bits,
}
use yojimbo_cmake.Reliable.SequenceBuffer.Window.{IsValid}
use yojimbo_cmake.Reliable.SequenceBuffer.Preserved.{create-IsValid, insert-IsValid}
use yojimbo_cmake.Reliable.SequenceBuffer.Members.{Holds, HoldsAfter, insert-Holds}
use yojimbo_cmake.Reliable.SequenceBuffer.AckBits.{generate_ack_bits_lem}
use yojimbo_cmake.Reliable.Sequence.{sequence_less_than, sequence_greater_than}
use yojimbo_cmake.Reliable.SequenceBuffer.{remove_entries, clear_all, clear_slot, clear_range}

-- Four slots that hold 7 as the newest number, and 5.
abbrev window : SequenceBuffer ℕ
window = record {
  sequence = 8;
  num_entries = 4;
  entry_sequence = empty_slot ∷ 5 ∷ empty_slot ∷ 7 ∷ [];
  entry_data = 0 ∷ 0 ∷ 0 ∷ 0 ∷ [];
}

window_made : (insert (insert (create 4 0) 5).1 7).1 ≡ window
unfolding create insert sequence_less_than sequence_greater_than remove_entries clear_all clear_slot
    clear_range
window_made = refl

window-IsValid : IsValid window
window-IsValid = subst IsValid window_made (
    insert-IsValid (insert (create 4 0) 5).1 7
      (insert-IsValid (create 4 0) 5
        (create-IsValid 4 16384 0 (omega arith) (omega arith) (omega arith)) (omega arith))
      (omega arith))

next_allowed : test_insert window 9 ≡ true
unfolding test_insert sequence_less_than sequence_greater_than
next_allowed = refl

old_refused : test_insert window 3 ≡ false
unfolding test_insert sequence_less_than sequence_greater_than
old_refused = refl

insert-IsValid_example : IsValid (insert window 9).1
insert-IsValid_example = insert-IsValid window 9 window-IsValid (omega arith)

insert-Holds_example : Holds (insert window 9).1 5 ↔ HoldsAfter window 9 (insert window 9).1 5
insert-Holds_example =
    insert-Holds window 9 window-IsValid (omega arith) next_allowed 5 (omega arith)

generate_ack_bits_lem_example :
    let (ack, bits) = generate_ack_bits window in
    (ack ≡ 7)
    × (bits < 2 ^ 32)
    × (bits / 2 ^ 2 % 2 ≡ (if exists window (sub16 ack 2) then 1 else 0))
generate_ack_bits_lem_example = generate_ack_bits_lem window 2 (omega arith)
