-- ===== src/Reliable/Sequence/Tests.antt =====
-- Runs of the comparison of sequence numbers of reliable/reliable.c across the wrap.
use yojimbo_cmake.Common.{◌+◌, ◌≤◌, ◌≡◌, ◌↔◌, ◌⊎◌, true, arith}
use yojimbo_cmake.Reliable.Sequence.{sequence_greater_than, distance, greater_iff_distance}

greater_iff_distance_example :
    (sequence_greater_than 3 65530 ≡ true)
    ↔ ((1 ≤ distance 65530 3) × (distance 65530 3 ≤ 32767) ⊎ (3 ≡ 65530 + 32768))
greater_iff_distance_example = greater_iff_distance 3 65530 (omega arith) (omega arith)
