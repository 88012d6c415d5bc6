-- ===== src/Netcode/EncryptionManager.antt =====
-- netcode/netcode.c: `struct netcode_encryption_manager_t`, which maps the addresses of clients to
-- the keys of their packets. The parallel arrays of the C struct are one list of mappings.
pub mod Lookup
pub mod Places
mod Tests
use yojimbo_cmake.Common.{
  ℕ, zero, suc, ◌+◌, ◌-◌, ◌*◌, ◌<◌, ◌≡◌, Bool, true, false, not, ◌&&◌, ◌||◌, Option, none, some,
  List, [], ◌∷◌, ◌==◌, ltb, if◌then◌else◌, get_or, modify, replicate,
}
use yojimbo_cmake.Common.Int.{ℤ, pos, ltb_ℤ}
use yojimbo_cmake.Common.Search.{first}
use yojimbo_cmake.Netcode.Clock.{Clock}
use yojimbo_cmake.Netcode.Address.{Address, type_none, address_equal, is_none}

abbrev pub max_encryption_mappings : ℕ
max_encryption_mappings = 1024

abbrev pub key_bytes : ℕ
key_bytes = 32

module _ (C : Clock) where
  open C use {Time, origin, never, long_ago, add_int, before, before_or_at}

  -- One place of the arrays. `client_index` is `none` for -1.
  pub record Mapping : Type 0 where
    pub timeout : ℤ
    pub expire_time : Time
    pub last_access_time : Time
    pub address : Address
    pub client_index : Option ℕ
    pub send_key : List ℕ
    pub receive_key : List ℕ

  pub record EncryptionManager : Type 0 where
    pub num_encryption_mappings : ℕ
    pub mappings : List Mapping

  abbrev pub no_key : List ℕ
  no_key = replicate key_bytes 0

  abbrev pub unused : Mapping
  unused = record {
    timeout = pos 0;
    expire_time = never;
    last_access_time = long_ago;
    address = type_none;
    client_index = none;
    send_key = no_key;
    receive_key = no_key;
  }

  pub reset : EncryptionManager
  reset = record {
    num_encryption_mappings = 0;
    mappings = replicate max_encryption_mappings unused;
  }

  abbrev pub mapping : EncryptionManager → ℕ → Mapping
  mapping m index = get_or m.mappings index unused

  -- `netcode_encryption_manager_entry_expired`, on the mapping at the index
  unfoldable pub entry_expired : Mapping → Time → Bool
  entry_expired e time =
      (ltb_ℤ 0 e.timeout && before (add_int e.last_access_time e.timeout) time)
      || (before_or_at origin e.expire_time && before e.expire_time time)

  abbrev pub no_client : Mapping → Bool
  no_client e = elim e.client_index [ none ↦ true | some i ↦ false ]

  -- The conditions of the two loops of `add_encryption_mapping`, the first of which is also that of
  -- `find_encryption_mapping`.
  abbrev pub matches : Address → Time → Mapping → Bool
  matches address time e = address_equal e.address address && not (entry_expired e time)

  abbrev pub reusable : Time → Mapping → Bool
  reusable time e = is_none e.address || (entry_expired e time && no_client e)

  -- The first of the places below `n` whose mapping passes the test.
  abbrev pub find_place : EncryptionManager → ℕ → (Mapping → Bool) → Option ℕ
  find_place m n test = first (λ i. test (mapping m i)) n 0

  -- What a caller gives for a mapping.
  pub record Request : Type 0 where
    pub address : Address
    pub send_key : List ℕ
    pub receive_key : List ℕ
    pub expire_time : Time
    pub timeout : ℤ

  -- A mapping that is there already, renewed.
  abbrev pub renewed : Request → Time → Mapping → Mapping
  renewed r time e = record e {
    timeout = r.timeout;
    expire_time = r.expire_time;
    last_access_time = time;
    send_key = r.send_key;
    receive_key = r.receive_key;
  }

  -- A mapping put in a place that is free.
  abbrev pub taken : Request → Time → Mapping → Mapping
  taken r time e = record e {
    timeout = r.timeout;
    address = r.address;
    expire_time = r.expire_time;
    last_access_time = time;
    send_key = r.send_key;
    receive_key = r.receive_key;
  }

  abbrev pub with_mapping : EncryptionManager → ℕ → (Mapping → Mapping) → EncryptionManager
  with_mapping m i f = record m { mappings = modify m.mappings i f }

  -- The second loop of `add_encryption_mapping`.
  unfoldable pub add_free : EncryptionManager → Request → Time → Bool × EncryptionManager
  add_free m r time = elim (find_place m max_encryption_mappings (reusable time)) [
    | none ↦ (false, m)
    | some i ↦ (
      true,
      record {
        num_encryption_mappings =
            if ltb m.num_encryption_mappings (i + 1) then i + 1 else m.num_encryption_mappings;
        mappings = modify m.mappings i (taken r time);
      },
    )
  ]

  unfoldable pub add_encryption_mapping :
      EncryptionManager → Request → Time → Bool × EncryptionManager
  add_encryption_mapping m r time =
      elim (find_place m m.num_encryption_mappings (matches r.address time)) [
        | some i ↦ (true, with_mapping m i (renewed r time))
        | none ↦ add_free m r time
      ]

  -- The loop at the end of a removal, over the `count` places below the one removed.
  unfoldable pub drop_expired : ℕ → List Mapping → Time → List Mapping × ℕ
  drop_expired zero xs time = (xs, 0)
  drop_expired (suc index) xs time =
      let rest =
        drop_expired index (modify xs index (λ e. record e { address = type_none })) time in
      if not (entry_expired (get_or xs index unused) time)
        || not (no_client (get_or xs index unused))
      then (xs, index + 1)
      else rest

  abbrev pub removed : Mapping → Mapping
  removed e = record e {
    expire_time = never;
    last_access_time = long_ago;
    address = type_none;
    send_key = no_key;
    receive_key = no_key;
  }

  -- What follows once the mapping at index `i` is cleared.
  unfoldable pub remove_last : EncryptionManager → ℕ → Time → EncryptionManager
  remove_last m i time =
      let (xs, count) = drop_expired i m.mappings time in
      if i + 1 == m.num_encryption_mappings
      then record { num_encryption_mappings = count; mappings = xs }
      else m

  unfoldable pub remove_encryption_mapping :
      EncryptionManager → Address → Time → Bool × EncryptionManager
  remove_encryption_mapping m address time =
      elim (find_place m m.num_encryption_mappings (λ e. address_equal e.address address)) [
        | none ↦ (false, m)
        | some i ↦ (true, remove_last (with_mapping m i removed) i time)
      ]

  -- `none` for -1
  unfoldable pub find_encryption_mapping :
      EncryptionManager → Address → Time → Option ℕ × EncryptionManager
  find_encryption_mapping m address time =
      elim (find_place m m.num_encryption_mappings (matches address time)) [
        | none ↦ (none, m)
        | some i ↦ (some i, with_mapping m i (λ e. record e { last_access_time = time }))
      ]

  pub touch : EncryptionManager → ℕ → Address → Time → Bool × EncryptionManager
  touch m index address time =
      if not (address_equal (mapping m index).address address)
      then (false, m)
      else (true, with_mapping m index (λ e. record e { last_access_time = time }))

  pub set_expire_time : EncryptionManager → ℕ → Time → EncryptionManager
  set_expire_time m index expire_time =
      with_mapping m index (λ e. record e { expire_time = expire_time })

  -- An index is `none` for -1, and a key `none` for NULL.
  unfoldable pub get_send_key : EncryptionManager → Option ℕ → Option (List ℕ)
  get_send_key m none = none
  get_send_key m (some i) = some (mapping m i).send_key

  unfoldable pub get_receive_key : EncryptionManager → Option ℕ → Option (List ℕ)
  get_receive_key m none = none
  get_receive_key m (some i) = some (mapping m i).receive_key

  pub get_timeout : EncryptionManager → Option ℕ → ℤ
  get_timeout m none = pos 0
  get_timeout m (some i) = (mapping m i).timeout
