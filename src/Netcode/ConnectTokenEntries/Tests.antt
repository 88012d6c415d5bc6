-- ===== src/Netcode/ConnectTokenEntries/Tests.antt =====
-- Runs of the list of connect tokens of netcode/netcode.c, with a clock of whole numbers.
use yojimbo_cmake.Common.{
  ℕ, ◌+◌, ◌-◌, ◌≡◌, refl, Bool, true, List, [], ◌∷◌, ltb, leb, length, replicate,
}
use yojimbo_cmake.Common.Int.{pos_part, neg_part}
use yojimbo_cmake.Common.Results.{ok}
use yojimbo_cmake.Netcode.Clock.{Clock}
use yojimbo_cmake.Netcode.Address.{Address, ipv4, address_equal}
use yojimbo_cmake.Netcode.ConnectTokenEntries.{
  ConnectTokenEntry, max_connect_token_entries, reset, find_or_add,
}
use yojimbo_cmake.Netcode.ConnectTokenEntries.Reuse.{
  find_or_add-first, find_or_add-again, find_or_add-ok, reset_size, IsUpdated,
}
use yojimbo_cmake.Netcode.Address.{same_parts}

abbrev clock : Clock
clock = record {
  Time = ℕ;
  origin = 1000;
  never = 999;
  long_ago = 0;
  add_int = λ t n. t + pos_part n - neg_part n;
  before = ltb;
  before_or_at = leb;
}

abbrev client : Address
client = ipv4 (127 ∷ 0 ∷ 0 ∷ 1 ∷ []) 40000

abbrev other : Address
other = ipv4 (127 ∷ 0 ∷ 0 ∷ 1 ∷ []) 40001

abbrev mac : List ℕ
mac = replicate 16 7

-- The list once the client's token was let in.
abbrev with_token : List (ConnectTokenEntry clock)
unfolding same_parts
with_token = (find_or_add-first clock client mac 1010 refl).0

added : find_or_add clock (reset clock) client mac 1010 ≡ ok (true, with_token)
unfolding same_parts
added = (find_or_add-first clock client mac 1010 refl).1

find_or_add-again_example :
    find_or_add clock with_token other mac 1011 ≡ ok (address_equal client other, with_token)
find_or_add-again_example =
    find_or_add-again clock (reset clock) with_token client other mac 1010 1011 (reset_size clock)
      added

find_or_add-ok_example :
    (r : Bool × List (ConnectTokenEntry clock)) × (find_or_add clock (reset clock) other mac 1011
      ≡ ok r)
    × IsUpdated clock (reset clock) (record { time = 1011; mac = mac; address = other }) r
    × (length r.1 ≡ max_connect_token_entries)
find_or_add-ok_example = find_or_add-ok clock (reset clock) other mac 1011 (reset_size clock)
