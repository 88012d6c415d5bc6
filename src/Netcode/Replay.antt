-- ===== src/Netcode/Replay.antt =====
-- netcode/netcode.c: replay protection, which refuses packets whose sequence number has been seen or
-- is too old.
pub mod Accepted
mod Tests
use yojimbo_cmake.Common.{
  ℕ, ◌+◌, ◌-◌, ◌%◌, ◌^◌, Bool, true, false, List, ltb, leb, ◌==◌, if◌then◌else◌, get_or, set,
  replicate,
}

abbrev pub replay_protection_buffer_size : ℕ
replay_protection_buffer_size = 256

-- UINT64_MAX, the mark of an entry that has seen nothing
abbrev pub uint64_max : ℕ
uint64_max = 0xFFFFFFFFFFFFFFFF

pub record ReplayProtection : Type 0 where
  pub most_recent_sequence : ℕ
  pub received_packet : List ℕ

unfoldable pub reset : ReplayProtection
reset = record {
  most_recent_sequence = 0;
  received_packet = replicate replay_protection_buffer_size uint64_max;
}

abbrev pub entry : ReplayProtection → ℕ → ℕ
entry r index = get_or r.received_packet index uint64_max

-- The sum is one of uint64_t values, which wraps around.
unfoldable pub already_received : ReplayProtection → ℕ → Bool
already_received r sequence =
    let index = sequence % replay_protection_buffer_size in
    if leb ((sequence + replay_protection_buffer_size) % 2 ^ 64) r.most_recent_sequence
    then true
    else if entry r index == uint64_max
    then false
    else if leb sequence (entry r index)
    then true
    else false

pub advance_sequence : ReplayProtection → ℕ → ReplayProtection
advance_sequence r sequence = record {
  most_recent_sequence =
      if ltb r.most_recent_sequence sequence then sequence else r.most_recent_sequence;
  received_packet = set r.received_packet (sequence % replay_protection_buffer_size) sequence;
}
