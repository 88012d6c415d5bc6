-- ===== src/Netcode/Replay/Tests.antt =====
-- Runs of the replay protection of netcode/netcode.c.
use yojimbo_cmake.Common.{ℕ, List, [], ◌∷◌, arith}
use yojimbo_cmake.Netcode.Replay.{reset}
use yojimbo_cmake.Netcode.Replay.Accepted.{
  reset-IsValid, let_through, Distinct, AllSequences, let_through-Distinct,
}

-- 300 comes twice, and 20 comes when it is too old.
abbrev arriving : List ℕ
arriving = 5 ∷ 300 ∷ 299 ∷ 300 ∷ 20 ∷ []

arriving_in : AllSequences arriving
arriving_in = ground arith

let_through-Distinct_example : Distinct (let_through reset arriving)
let_through-Distinct_example = let_through-Distinct arriving reset reset-IsValid arriving_in
