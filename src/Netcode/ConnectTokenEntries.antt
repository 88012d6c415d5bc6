-- ===== src/Netcode/ConnectTokenEntries.antt =====
-- netcode/netcode.c: the list of connect tokens that a server has seen, `struct
-- netcode_connect_token_entry_t`, and `netcode_connect_token_entries_find_or_add`.
pub mod Reuse
mod Tests
use yojimbo_cmake.Common.{
  ℕ, zero, suc, ◌+◌, Bool, true, false, ◌||◌, Option, none, some, List, if◌then◌else◌, get_or, set,
  replicate, ltb,
}
use yojimbo_cmake.Common.Results.{◌>>=◌, Result, ok, fault}
use yojimbo_cmake.Netcode.Clock.{Clock}
use yojimbo_cmake.Netcode.Address.{Address, type_none, same_parts, address_equal}

abbrev pub max_connect_token_entries : ℕ
max_connect_token_entries = 2048

abbrev pub mac_bytes : ℕ
mac_bytes = 16

-- memcmp( mac, other, NETCODE_MAC_BYTES ) == 0
abbrev pub same_mac : List ℕ → List ℕ → Bool
same_mac mac other = same_parts mac_bytes mac other 0

module _ (C : Clock) where
  open C use {Time, origin, long_ago, before}

  pub record ConnectTokenEntry : Type 0 where
    pub time : Time
    pub mac : List ℕ
    pub address : Address

  abbrev pub blank : ConnectTokenEntry
  blank = record { time = long_ago; mac = replicate mac_bytes 0; address = type_none }

  pub reset : List ConnectTokenEntry
  reset = replicate max_connect_token_entries blank

  -- The local variables of the loop; an index is `none` for -1.
  pub record Scan : Type 0 where
    pub matching_token_index : Option ℕ
    pub oldest_token_index : Option ℕ
    pub oldest_token_time : Time

  abbrev pub is_older : ConnectTokenEntry → Scan → Bool
  is_older e s = elim s.oldest_token_index [
    | none ↦ true
    | some i ↦ before e.time s.oldest_token_time
  ]

  -- One round of the loop.
  abbrev pub scan_entry : ConnectTokenEntry → List ℕ → ℕ → Scan → Scan
  scan_entry e mac i s = record {
    matching_token_index = if same_mac mac e.mac then some i else s.matching_token_index;
    oldest_token_index = if is_older e s then some i else s.oldest_token_index;
    oldest_token_time = if is_older e s then e.time else s.oldest_token_time;
  }

  -- `rounds` rounds are left, from `i` on. The array has 2048 places.
  -- A round past them would read outside of it.
  pub scan : ℕ → List ConnectTokenEntry → List ℕ → ℕ → Scan → Result Scan
  scan zero entries mac i s = ok s
  scan (suc rounds) entries mac i s =
      let rest = scan rounds entries mac (i + 1) (scan_entry (get_or entries i blank) mac i s) in
      if ltb i max_connect_token_entries then rest else fault

  abbrev pub start : Scan
  start = record {
    matching_token_index = none;
    oldest_token_index = none;
    oldest_token_time = origin;
  }

  -- With no oldest entry, place -1 would be written to, and with one past the 2048 of the
  -- array, a place outside of it.
  pub replace_oldest :
      List ConnectTokenEntry → Option ℕ → ConnectTokenEntry → Result (Bool × List ConnectTokenEntry)
  replace_oldest entries none e = fault
  replace_oldest entries (some i) e =
      if ltb i max_connect_token_entries then ok (true, set entries i e) else fault

  -- What follows the loop. The address of an entry that was found is read, which one past the array
  -- would not have.
  pub decide :
      List ConnectTokenEntry
      → Address
      → List ℕ
      → Time
      → Scan
      → Result (Bool × List ConnectTokenEntry)
  decide entries address mac time s = elim s.matching_token_index [
    | none ↦
        replace_oldest entries s.oldest_token_index
          (record { time = time; mac = mac; address = address })
    | some i ↦
        if ltb i max_connect_token_entries
        then ok (
          if address_equal (get_or entries i blank).address address then true else false,
          entries,
        )
        else fault
  ]

  pub find_or_add :
      List ConnectTokenEntry → Address → List ℕ → Time → Result (Bool × List ConnectTokenEntry)
  find_or_add entries address mac time = do
    s ← scan max_connect_token_entries entries mac 0 start
    decide entries address mac time s
