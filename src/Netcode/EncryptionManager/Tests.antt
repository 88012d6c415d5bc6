-- ===== src/Netcode/EncryptionManager/Tests.antt =====
-- Runs of the encryption manager of netcode/netcode.c, with a clock of whole numbers.
use yojimbo_cmake.Common.{ℕ, ◌+◌, ◌-◌, ◌≡◌, refl, true, [], ◌∷◌, ltb, leb, replicate}
use yojimbo_cmake.Common.Int.{pos, pos_part, neg_part}
use yojimbo_cmake.Netcode.Clock.{Clock}
use yojimbo_cmake.Netcode.Address.{Address, ipv4}
use yojimbo_cmake.Netcode.EncryptionManager.{
  EncryptionManager, Request, reset, add_encryption_mapping, remove_encryption_mapping,
}
use yojimbo_cmake.Netcode.EncryptionManager.Lookup.{IsValid, IsFresh, FindsKeys, add-finds}
use yojimbo_cmake.Netcode.EncryptionManager.Places.{reset-IsValid, add-IsValid, remove-IsValid}
use yojimbo_cmake.Netcode.EncryptionManager.{entry_expired}
use yojimbo_cmake.Common.Search.{first}
use yojimbo_cmake.Netcode.EncryptionManager.{add_free}

-- Time 0.0 is the number 1000.
abbrev clock : Clock
clock = record {
  Time = ℕ;
  origin = 1000;
  never = 999;
  long_ago = 0;
  add_int = λ t n. t + pos_part n - neg_part n;
  before = ltb;
  before_or_at = leb;
}

abbrev client : Address
client = ipv4 (127 ∷ 0 ∷ 0 ∷ 1 ∷ []) 40000

abbrev request : Request clock
request = record {
  address = client;
  send_key = replicate 32 1;
  receive_key = replicate 32 2;
  expire_time = 1030;
  timeout = pos 5;
}

fresh : IsFresh clock request 1010
unfolding entry_expired
fresh = refl

added : (add_encryption_mapping clock (reset clock) request 1010).0 ≡ true
unfolding add_encryption_mapping first reset add_free
added = refl

add-finds_example :
    FindsKeys clock
      (add_encryption_mapping clock (reset clock) request 1010).1
      client
      1010
      (replicate 32 1)
      (replicate 32 2)
add-finds_example =
    add-finds clock (reset clock) request 1010 (reset-IsValid clock) refl fresh added

abbrev with_client : EncryptionManager clock
with_client = (add_encryption_mapping clock (reset clock) request 1010).1

with_client-IsValid : IsValid clock with_client
with_client-IsValid = add-IsValid clock (reset clock) request 1010 (reset-IsValid clock)

remove-IsValid_example : IsValid clock (remove_encryption_mapping clock with_client client 1012).1
remove-IsValid_example = remove-IsValid clock with_client client 1012 with_client-IsValid
