-- ===== src/Netcode/EncryptionManager/Lookup.antt =====
-- Looking up what was added to the encryption manager, and the invariant of its places.
use yojimbo_cmake.Common.{
  ℕ, ◌+◌, ◌<◌, ◌≤◌, ◌≡◌, refl, sym, subst, inl, inr, Bool, true, false, ◌&&◌, some, List, length,
  get_or, modify, length-modify, get_or-modify_self, get_or-modify_ne, ltb, if◌then◌else◌, arith,
  dec_lt,
}
use mathlib.Core.Bool.{true≢false}
use yojimbo_cmake.Common.Search.{IsFirst, first-cases, first-eq}
use yojimbo_cmake.Netcode.Clock.{Clock}
use yojimbo_cmake.Netcode.Address.{
  Address, address_equal, is_none, address_equal_refl, address_equal_none,
}
use yojimbo_cmake.Netcode.EncryptionManager.{
  max_encryption_mappings, Mapping, EncryptionManager, unused, mapping, entry_expired, matches,
  reusable, Request, renewed, taken, add_free, add_encryption_mapping, find_encryption_mapping,
  get_send_key, get_receive_key,
}

both_true : (a b : Bool) → (a && b) ≡ true → (a ≡ true) × (b ≡ true)
both_true true true h = (refl, refl)
both_true true false h = absurd (true≢false (sym h))
both_true false b h = absurd (true≢false (sym h))

module _ (C : Clock) where
  open C use {Time}

  pub record IsValid (m : EncryptionManager C) : Type 0 where
    pub places : length m.mappings ≡ max_encryption_mappings
    pub num_in : m.num_encryption_mappings ≤ max_encryption_mappings
    -- The places from `num_encryption_mappings` on hold no address.
    pub rest_unused :
        (i : ℕ) → m.num_encryption_mappings ≤ i → is_none (mapping C m i).address ≡ true

  -- The keys that a look up of an address at some time gives.
  abbrev pub FindsKeys : EncryptionManager C → Address → Time → List ℕ → List ℕ → Type 0
  FindsKeys m address time send_key receive_key =
      let (slot, m') = find_encryption_mapping C m address time in
      (get_send_key C m' slot ≡ some send_key) × (get_receive_key C m' slot ≡ some receive_key)

  -- A look up gives the keys of the first mapping that matches.
  finds_first :
      (m : EncryptionManager C) (address : Address) (time : Time) (i : ℕ)
      → i < length m.mappings
      → IsFirst (λ j. matches C address time (mapping C m j)) m.num_encryption_mappings 0 i
      → FindsKeys m address time (mapping C m i).send_key (mapping C m i).receive_key
  unfolding find_encryption_mapping get_send_key get_receive_key
  finds_first m address time i hi s =
      rw
        (
          first-eq (λ j. matches C address time (mapping C m j)) m.num_encryption_mappings 0 i s,
          get_or-modify_self m.mappings i (λ e. record e { last_access_time = time }) (unused C) hi,
          find_encryption_mapping,
        )
        (refl, refl)

  -- Changing the mapping at `i` so that it matches makes it the first match, if no place before it
  -- matches.
  changed-IsFirst :
      (m : EncryptionManager C) (f : Mapping C → Mapping C) (address : Address) (time : Time)
      (n i : ℕ)
      → i < length m.mappings
      → i < n
      → matches C address time (f (mapping C m i)) ≡ true
      → ((j : ℕ) → j < i → matches C address time (mapping C m j) ≡ false)
      → IsFirst (λ j. matches C address time (get_or (modify m.mappings i f) j (unused C))) n 0 i
  changed-IsFirst m f address time n i hi hn h none_before = record {
    above = omega arith;
    below = omega arith;
    passes = rw (get_or-modify_self m.mappings i f (unused C) hi) h;
    before = λ j lo lt.
        rw (get_or-modify_ne m.mappings i j f (unused C) (omega arith)) (none_before j lt);
  }

  changed-finds :
      (m : EncryptionManager C) (f : Mapping C → Mapping C) (address : Address) (time : Time)
      (n i : ℕ)
      → i < length m.mappings
      → i < n
      → matches C address time (f (mapping C m i)) ≡ true
      → ((j : ℕ) → j < i → matches C address time (mapping C m j) ≡ false)
      → FindsKeys
          (record { num_encryption_mappings = n; mappings = modify m.mappings i f })
          address
          time
          (f (mapping C m i)).send_key
          (f (mapping C m i)).receive_key
  changed-finds m f address time n i hi hn h none_before =
      subst (λ e. FindsKeys m' address time e.send_key e.receive_key)
        (get_or-modify_self m.mappings i f (unused C) hi)
        (finds_first m' address time i (rw (length-modify m.mappings i f) hi)
          (changed-IsFirst m f address time n i hi hn h none_before))
    where
      m' : EncryptionManager C
      m' = record { num_encryption_mappings = n; mappings = modify m.mappings i f }

  -- What was just given for an address is not expired at once.
  abbrev pub IsFresh : Request C → Time → Type 0
  IsFresh r time = entry_expired C (taken C r time (unused C)) time ≡ false

  taken-matches :
      (r : Request C) (time : Time) (e : Mapping C)
      → is_none r.address ≡ false
      → IsFresh r time
      → matches C r.address time (taken C r time e) ≡ true
  unfolding entry_expired
  taken-matches r time e named fresh = rw (address_equal_refl r.address named, fresh) refl

  renewed-matches :
      (r : Request C) (time : Time) (e : Mapping C)
      → address_equal e.address r.address ≡ true
      → IsFresh r time
      → matches C r.address time (renewed C r time e) ≡ true
  unfolding entry_expired
  renewed-matches r time e same fresh = rw (same, fresh) refl

  unset_matches :
      (address : Address) (time : Time) (e : Mapping C)
      → is_none e.address ≡ true
      → matches C address time e ≡ false
  unset_matches address time e h = rw (address_equal_none e.address address h) refl

  -- What the first loop of an addition found is no place that matches.
  abbrev NoMatch : EncryptionManager C → Address → Time → Type 0
  NoMatch m address time =
      (j : ℕ)
      → 0 ≤ j
      → j < 0 + m.num_encryption_mappings
      → matches C address time (mapping C m j) ≡ false

  -- Then no place at all matches.
  none_matches :
      (m : EncryptionManager C) (address : Address) (time : Time)
      → IsValid m
      → NoMatch m address time
      → (j : ℕ) → matches C address time (mapping C m j) ≡ false
  none_matches m address time v h j = elim (dec_lt j m.num_encryption_mappings) [
    | yes lt ↦ h j (omega arith) (omega arith)
    | no ge ↦ unset_matches address time (mapping C m j) (v.rest_unused j (omega arith))
  ]

  add_free-finds :
      (m : EncryptionManager C) (r : Request C) (time : Time)
      → IsValid m
      → is_none r.address ≡ false
      → IsFresh r time
      → NoMatch m r.address time
      → (add_free C m r time).0 ≡ true
      → FindsKeys (add_free C m r time).1 r.address time r.send_key r.receive_key
  unfolding add_free
  add_free-finds m r time v named fresh h success =
      elim (first-cases (λ j. reusable C time (mapping C m j)) max_encryption_mappings 0) [
        | inl (e, full) ↦ absurd (true≢false (sym (rw (e, add_free) at success)))
        | inr (i, e, s) ↦
            rw (e, add_free)
              (changed-finds m (taken C r time) r.address time (counted i) i (rw v.places s.below)
                (counted_above i) (taken-matches r time (mapping C m i) named fresh)
                (λ j lt. none_matches m r.address time v h j))
      ]
    where
      counted : ℕ → ℕ
      counted i = if ltb m.num_encryption_mappings (i + 1) then i + 1 else m.num_encryption_mappings

      counted_above : (i : ℕ) → i < counted i
      counted_above i = ground arith

  -- An address that was added, when that succeeded and what was given for it has not expired, is
  -- found with the keys given for it.
  pub add-finds :
      (m : EncryptionManager C) (r : Request C) (time : Time)
      → IsValid m
      → is_none r.address ≡ false
      → IsFresh r time
      → (add_encryption_mapping C m r time).0 ≡ true
      → FindsKeys (add_encryption_mapping C m r time).1 r.address time r.send_key r.receive_key
  unfolding add_encryption_mapping
  add-finds m r time v named fresh success =
      elim (first-cases (λ j. matches C r.address time (mapping C m j)) m.num_encryption_mappings
        0) [
          | inl (e, h) ↦
              rw (e, add_encryption_mapping)
                (add_free-finds m r time v named fresh h
                  (rw (e, add_encryption_mapping) at success))
          | inr (i, e, s) ↦
              rw (e, add_encryption_mapping)
                (changed-finds m (renewed C r time) r.address time m.num_encryption_mappings i
                  (omega (arith, v.places, v.num_in, s.below)) (omega (arith, s.below))
                  (renewed-matches r time (mapping C m i) (both_true _ _ s.passes).0 fresh)
                  (λ j lt. s.before j (omega arith) lt))
        ]
