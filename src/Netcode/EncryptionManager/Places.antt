-- ===== src/Netcode/EncryptionManager/Places.antt =====
-- The operations of the encryption manager keep its places in order: 1024 of them, and no address
-- behind the ones that are counted.
use yojimbo_cmake.Common.{
  ℕ, zero, suc, ◌+◌, ◌<◌, ◌≤◌, ◌≡◌, refl, ◌∙◌, ap, subst, inl, inr, Bool, true, Bool-cases, not,
  ◌||◌, List, length, get_or, modify, length-modify, length-replicate, replicate,
  get_or-modify_self, get_or-modify_ne, ltb, ◌==◌, ==_iff, if◌then◌else◌, arith, ℕ_discrete, dec_lt,
}
use yojimbo_cmake.Common.Search.{first-cases}
use yojimbo_cmake.Netcode.Clock.{Clock}
use yojimbo_cmake.Netcode.Address.{Address, type_none, address_equal, is_none}
use yojimbo_cmake.Netcode.EncryptionManager.{
  max_encryption_mappings, Mapping, EncryptionManager, unused, reset, mapping, entry_expired,
  no_client, matches, reusable, Request, renewed, taken, with_mapping, add_free,
  add_encryption_mapping, drop_expired, removed, remove_last, remove_encryption_mapping,
  find_encryption_mapping,
}
use yojimbo_cmake.Netcode.EncryptionManager.Lookup.{IsValid}

module _ (C : Clock) where
  open C use {Time}

  get_or-unused : (n i : ℕ) → get_or (replicate n (unused C)) i (unused C) ≡ unused C
  get_or-unused zero i = refl
  get_or-unused (suc n) zero = refl
  get_or-unused (suc n) (suc i) = get_or-unused n i

  pub reset-IsValid : IsValid C (reset C)
  unfolding reset
  reset-IsValid = record {
    places = length-replicate max_encryption_mappings (unused C);
    num_in = omega arith;
    rest_unused = λ i h. ap (λ e. is_none e.address) (get_or-unused max_encryption_mappings i);
  }

  -- A change of a place below `n`, where no address is counted out.
  changed-IsValid :
      (m : EncryptionManager C) (f : Mapping C → Mapping C) (i n : ℕ)
      → IsValid C m
      → i < n
      → n ≤ max_encryption_mappings
      → m.num_encryption_mappings ≤ n
      → IsValid C (record { num_encryption_mappings = n; mappings = modify m.mappings i f })
  changed-IsValid m f i n v hi hn more = record {
    places = length-modify m.mappings i f ∙ v.places;
    num_in = hn;
    rest_unused = λ j h.
        rw (get_or-modify_ne m.mappings i j f (unused C) (omega arith))
          (v.rest_unused j (omega arith));
  }

  add_free-IsValid :
      (m : EncryptionManager C) (r : Request C) (time : Time)
      → IsValid C m
      → IsValid C (add_free C m r time).1
  unfolding add_free
  add_free-IsValid m r time v =
      elim (first-cases (λ j. reusable C time (mapping C m j)) max_encryption_mappings 0) [
        | inl (e, full) ↦ rw (e, add_free) v
        | inr (i, e, s) ↦
            rw (e, add_free)
              (changed-IsValid m (taken C r time) i (counted i) v (above i)
                (small i s.below v.num_in) (more i))
      ]
    where
      counted : ℕ → ℕ
      counted i = if ltb m.num_encryption_mappings (i + 1) then i + 1 else m.num_encryption_mappings

      above : (i : ℕ) → i < counted i
      above i = ground arith

      more : (i : ℕ) → m.num_encryption_mappings ≤ counted i
      more i = ground arith

      small : (i : ℕ) → i < 1024 → m.num_encryption_mappings ≤ 1024 → counted i ≤ 1024
      small i h k = ground arith

  -- `netcode_encryption_manager_add_encryption_mapping` keeps the places in order, whether it renews
  -- a mapping, takes a place, or finds none.
  pub add-IsValid :
      (m : EncryptionManager C) (r : Request C) (time : Time)
      → IsValid C m
      → IsValid C (add_encryption_mapping C m r time).1
  unfolding add_encryption_mapping
  add-IsValid m r time v =
      elim (first-cases (λ j. matches C r.address time (mapping C m j)) m.num_encryption_mappings
        0) [
          | inl (e, h) ↦ rw (e, add_encryption_mapping) (add_free-IsValid m r time v)
          | inr (i, e, s) ↦
              rw (e, add_encryption_mapping)
                (changed-IsValid m (renewed C r time) i m.num_encryption_mappings v
                  (omega (arith, s.below)) v.num_in (omega arith))
        ]

  -- What the loop at the end of a removal does to the places below `k`, in terms of what it
  -- returns.
  record Dropped (k : ℕ) (xs ys : List (Mapping C)) (count : ℕ) : Type 0 where
    same_length : length ys ≡ length xs
    fewer : count ≤ k
    emptied : (j : ℕ) → count ≤ j → j < k → is_none (get_or ys j (unused C)).address ≡ true
    kept : (j : ℕ) → k ≤ j → get_or ys j (unused C) ≡ get_or xs j (unused C)

  abbrev cleared : List (Mapping C) → ℕ → List (Mapping C)
  cleared xs k = modify xs k (λ e. record e { address = type_none })

  Dropped-more :
      (k : ℕ) (xs ys : List (Mapping C)) (count : ℕ)
      → k < length xs
      → Dropped k (cleared xs k) ys count
      → Dropped (suc k) xs ys count
  Dropped-more k xs ys count h d = record {
    same_length = d.same_length ∙ length-modify xs k clear;
    fewer = omega (arith, d.fewer);
    emptied = λ j lo hi. elim (ℕ_discrete k j) [
      | yes e ↦ subst (λ i. is_none (get_or ys i (unused C)).address ≡ true) e at_k
      | no ne ↦ d.emptied j lo (omega arith)
    ];
    kept = λ j hi. d.kept j (omega arith) ∙ get_or-modify_ne xs k j clear (unused C) (omega arith);
  }
    where
      clear : Mapping C → Mapping C
      clear e = record e { address = type_none }

      at_k : is_none (get_or ys k (unused C)).address ≡ true
      at_k = rw (d.kept k (omega arith), get_or-modify_self xs k clear (unused C) h) refl

  Dropped-nothing : (k : ℕ) (xs : List (Mapping C)) → Dropped k xs xs k
  Dropped-nothing k xs = record {
    same_length = refl;
    fewer = omega arith;
    emptied = λ j lo hi. absurd (omega arith);
    kept = λ j hi. refl;
  }

  drop_expired-Dropped :
      (k : ℕ) (xs : List (Mapping C)) (time : Time)
      → k ≤ length xs
      → Dropped k xs (drop_expired C k xs time).0 (drop_expired C k xs time).1
  unfolding drop_expired
  drop_expired-Dropped zero xs time h = Dropped-nothing 0 xs
  drop_expired-Dropped (suc k) xs time h = elim (Bool-cases stays) [
    | inl t ↦ rw t (subst (Dropped (suc k) xs xs) (omega arith) (Dropped-nothing (suc k) xs))
    | inr t ↦ rw t (
        Dropped-more k xs _ _ (omega arith) (
          drop_expired-Dropped k (cleared xs k) time
            (rw (length-modify xs k (λ e. record e { address = type_none })) (omega arith))))
  ]
    where
      stays : Bool
      stays =
          not (entry_expired C (get_or xs k (unused C)) time)
          || not (no_client C (get_or xs k (unused C)))

  -- What is left when the mapping at `i`, below the count, has no address.
  remove_last-IsValid :
      (m : EncryptionManager C) (i : ℕ) (time : Time)
      → IsValid C m
      → i < m.num_encryption_mappings
      → is_none (mapping C m i).address ≡ true
      → IsValid C (remove_last C m i time)
  unfolding remove_last
  remove_last-IsValid m i time v hi here = elim (Bool-cases (i + 1 == m.num_encryption_mappings)) [
    | inr f ↦ rw f v
    | inl t ↦ rw t (record {
      places = d.same_length ∙ v.places;
      num_in = omega (arith, d.fewer, v.num_in);
      rest_unused = λ j h. elim (dec_lt j i) [
        | yes lt ↦ d.emptied j h lt
        | no ge ↦ rw (d.kept j (omega arith)) (behind t j (omega arith))
      ];
    })
  ]
    where
      d :
          Dropped i m.mappings
            (drop_expired C i m.mappings time).0
            (drop_expired C i m.mappings time).1
      d = drop_expired-Dropped i m.mappings time (omega (arith, v.places, v.num_in))

      behind :
          (i + 1 == m.num_encryption_mappings) ≡ true
          → (j : ℕ) → i ≤ j
          → is_none (mapping C m j).address ≡ true
      behind t j h = elim (ℕ_discrete i j) [
        | yes e ↦ subst (λ k. is_none (mapping C m k).address ≡ true) e here
        | no ne ↦ v.rest_unused j (omega (arith, (==_iff (i + 1) m.num_encryption_mappings).0 t))
      ]

  -- `netcode_encryption_manager_remove_encryption_mapping` keeps the places in order, also when the
  -- last mapping is removed and the count drops past expired ones.
  pub remove-IsValid :
      (m : EncryptionManager C) (address : Address) (time : Time)
      → IsValid C m
      → IsValid C (remove_encryption_mapping C m address time).1
  unfolding remove_encryption_mapping
  remove-IsValid m address time v =
      elim (first-cases (λ j. address_equal (mapping C m j).address address)
        m.num_encryption_mappings 0) [
          | inl (e, h) ↦ rw (e, remove_encryption_mapping) v
          | inr (i, e, s) ↦
              rw (e, remove_encryption_mapping)
                (remove_last-IsValid (with_mapping C m i (removed C)) i time
                  (changed-IsValid m (removed C) i m.num_encryption_mappings v
                    (omega (arith, s.below)) v.num_in (omega arith))
                  (omega (arith, s.below))
                  (ap (λ e. is_none e.address)
                    (get_or-modify_self m.mappings i (removed C) (unused C)
                      (omega (arith, s.below, v.places, v.num_in)))))
        ]

  -- `netcode_encryption_manager_find_encryption_mapping` keeps the places in order.
  pub find-IsValid :
      (m : EncryptionManager C) (address : Address) (time : Time)
      → IsValid C m
      → IsValid C (find_encryption_mapping C m address time).1
  unfolding find_encryption_mapping
  find-IsValid m address time v =
      elim (first-cases (λ j. matches C address time (mapping C m j)) m.num_encryption_mappings 0) [
        | inl (e, h) ↦ rw (e, find_encryption_mapping) v
        | inr (i, e, s) ↦
            rw (e, find_encryption_mapping)
              (changed-IsValid m (λ e. record e { last_access_time = time }) i
                m.num_encryption_mappings v (omega (arith, s.below)) v.num_in (omega arith))
      ]
