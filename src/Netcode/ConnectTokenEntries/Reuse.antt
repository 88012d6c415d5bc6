-- ===== src/Netcode/ConnectTokenEntries/Reuse.antt =====
-- A connect token that was let in is known: from the same address it is let in again, and from
-- another it is not.
use yojimbo_cmake.Common.{
  ℕ, zero, suc, ◌+◌, ◌<◌, ◌≤◌, ◌≡◌, ◌≢◌, ◌⊎◌, refl, sym, ◌∙◌, ap, subst, inl, inr, Bool, true,
  false, Bool-cases, Option, none, some, List, [], length, get_or, set, length-set, replicate,
  length-replicate, lt→ltb, get_or-set_self, get_or-set_ne, if◌then◌else◌, arith, ℕ_discrete,
}
use mathlib.Core.Bool.{true≢false}
use yojimbo_cmake.Common.Results.{Result, ok, invalid, fault}
use yojimbo_cmake.Netcode.Clock.{Clock}
use yojimbo_cmake.Netcode.Address.{Address, same_parts_refl, address_equal, address_equal_common}
use yojimbo_cmake.Netcode.ConnectTokenEntries.{
  max_connect_token_entries, mac_bytes, same_mac, ConnectTokenEntry, blank, Scan, scan_entry, scan,
  start, reset, replace_oldest, decide, find_or_add,
}

module _ (C : Clock) where
  open C use {Time}

  has_mac : List (ConnectTokenEntry C) → List ℕ → ℕ → Bool
  has_mac entries mac i = same_mac mac (get_or entries i (blank C)).mac

  -- `k` is the last of the `n` places from `i` on with the mac.
  record IsLast (entries : List (ConnectTokenEntry C)) (mac : List ℕ) (n i k : ℕ) : Type 0 where
    above : i ≤ k
    below : k < i + n
    passes : has_mac entries mac k ≡ true
    after : (j : ℕ) → k < j → j < i + n → has_mac entries mac j ≡ false

  -- The loop as long as it stays in the array.
  run : ℕ → List (ConnectTokenEntry C) → List ℕ → ℕ → Scan C → Scan C
  run zero entries mac i s = s
  run (suc n) entries mac i s =
      run n entries mac (i + 1) (scan_entry C (get_or entries i (blank C)) mac i s)

  scan-run :
      (n : ℕ) (entries : List (ConnectTokenEntry C)) (mac : List ℕ) (i : ℕ) (s : Scan C)
      → i + n ≤ max_connect_token_entries
      → scan C n entries mac i s ≡ ok (run n entries mac i s)
  unfolding scan run
  scan-run zero entries mac i s h = refl
  scan-run (suc n) entries mac i s h = rw (lt→ltb i max_connect_token_entries (omega arith)) (
      scan-run n entries mac (i + 1) (scan_entry C (get_or entries i (blank C)) mac i s)
        (omega arith))

  matching : ℕ → List (ConnectTokenEntry C) → List ℕ → ℕ → Scan C → Option ℕ
  matching n entries mac i s = (run n entries mac i s).matching_token_index

  scan_matching :
      (n : ℕ) (entries : List (ConnectTokenEntry C)) (mac : List ℕ) (i : ℕ) (s : Scan C)
      → ((matching n entries mac i s ≡ s.matching_token_index)
          × ((j : ℕ) → i ≤ j → j < i + n → has_mac entries mac j ≡ false))
        ⊎ ((k : ℕ) × (matching n entries mac i s ≡ some k) × IsLast entries mac n i k)
  unfolding matching run has_mac
  scan_matching zero entries mac i s = inl (refl, λ j lo hi. absurd (omega arith))
  scan_matching (suc n) entries mac i s =
      elim (scan_matching n entries mac (i + 1)
        (scan_entry C (get_or entries i (blank C)) mac i s)) [
          | inr (k, e, l) ↦ inr (
            k,
            e,
            record {
              above = omega (arith, l.above);
              below = omega (arith, l.below);
              passes = l.passes;
              after = λ j lo hi. l.after j lo (omega arith);
            },
          )
          | inl (e, rest) ↦ elim (Bool-cases (has_mac entries mac i)) [
            | inl t ↦ inr (
              i,
              e ∙ rw t refl,
              record {
                above = omega arith;
                below = omega arith;
                passes = t;
                after = λ j lo hi. rest j (omega arith) (omega arith);
              },
            )
            | inr f ↦ inl (
              e ∙ rw f refl,
              λ j lo hi. elim (ℕ_discrete i j) [
                | yes p ↦ subst (λ k. has_mac entries mac k ≡ false) p f
                | no p ↦ rest j (omega arith) (omega arith)
              ],
            )
          ]
        ]

  oldest : ℕ → List (ConnectTokenEntry C) → List ℕ → ℕ → Scan C → Option ℕ
  oldest n entries mac i s = (run n entries mac i s).oldest_token_index

  -- Once there is an oldest place below `i`, there is one below `i + n`.
  scan_oldest_from :
      (n : ℕ) (entries : List (ConnectTokenEntry C)) (mac : List ℕ) (i k : ℕ) (s : Scan C)
      → s.oldest_token_index ≡ some k
      → k < i
      → (k' : ℕ) × (oldest n entries mac i s ≡ some k') × (k' < i + n)
  unfolding oldest run
  scan_oldest_from zero entries mac i k s e h = (k, e, omega arith)
  scan_oldest_from (suc n) entries mac i k s e h =
      elim (Bool-cases (C.before (get_or entries i (blank C)).time s.oldest_token_time)) [
        | inl t ↦ further (
            scan_oldest_from n entries mac (i + 1) i
              (scan_entry C (get_or entries i (blank C)) mac i s) (rw (e, t) refl) (omega arith))
        | inr t ↦ further (
            scan_oldest_from n entries mac (i + 1) k
              (scan_entry C (get_or entries i (blank C)) mac i s) (rw (e, t) refl) (omega arith))
      ]
    where
      further :
          {o : Option ℕ}
          → (k' : ℕ) × (o ≡ some k') × (k' < i + 1 + n)
          → (k' : ℕ) × (o ≡ some k') × (k' < i + suc n)
      further (k', p, lt) = (k', p, omega arith)

  scan_oldest :
      (entries : List (ConnectTokenEntry C)) (mac : List ℕ)
      → (k : ℕ) × (oldest max_connect_token_entries entries mac 0 (start C) ≡ some k)
        × (k < max_connect_token_entries)
  unfolding oldest run
  scan_oldest entries mac =
      scan_oldest_from 2047 entries mac 1 0
        (scan_entry C (get_or entries 0 (blank C)) mac 0 (start C)) refl (omega arith)

  if_itself : (b : Bool) → (if b then true else false) ≡ b
  if_itself true = refl
  if_itself false = refl

  -- The loop stays in the array, and what follows it decides.
  find_or_add-decide :
      (entries : List (ConnectTokenEntry C)) (a : Address) (mac : List ℕ) (time : Time)
      → find_or_add C entries a mac time
        ≡ decide C entries a mac time (run max_connect_token_entries entries mac 0 (start C))
  unfolding find_or_add
  find_or_add-decide entries a mac time =
      rw (scan-run max_connect_token_entries entries mac 0 (start C) (omega arith)) refl

  -- When the mac is found in place `k`, the address there decides, and the list stays as it is.
  answer_found :
      (entries : List (ConnectTokenEntry C)) (mac : List ℕ) (k : ℕ) (b : Address) (time : Time)
      → k < max_connect_token_entries
      → matching max_connect_token_entries entries mac 0 (start C) ≡ some k
      → find_or_add C entries b mac time
        ≡ ok (address_equal (get_or entries k (blank C)).address b, entries)
  unfolding matching decide
  answer_found entries mac k b time h e =
      find_or_add-decide entries b mac time
      ∙ rw (e, decide, lt→ltb k max_connect_token_entries h)
          (ap (λ r. ok (r, entries))
            (if_itself (address_equal (get_or entries k (blank C)).address b)))

  -- When it is found nowhere, the oldest place is taken.
  answer_new :
      (entries : List (ConnectTokenEntry C)) (mac : List ℕ) (k : ℕ) (a : Address) (time : Time)
      → k < max_connect_token_entries
      → matching max_connect_token_entries entries mac 0 (start C) ≡ none
      → oldest max_connect_token_entries entries mac 0 (start C) ≡ some k
      → find_or_add C entries a mac time
        ≡ ok (true, set entries k (record { time = time; mac = mac; address = a }))
  unfolding matching oldest decide replace_oldest
  answer_new entries mac k a time h e o =
      find_or_add-decide entries a mac time
      ∙ rw (e, o, decide, replace_oldest, lt→ltb k max_connect_token_entries h) refl

  -- The only place with the mac is the one found.
  matching_only :
      (entries : List (ConnectTokenEntry C)) (mac : List ℕ) (k : ℕ)
      → k < max_connect_token_entries
      → has_mac entries mac k ≡ true
      → ((j : ℕ) → j < max_connect_token_entries → j ≢ k → has_mac entries mac j ≡ false)
      → matching max_connect_token_entries entries mac 0 (start C) ≡ some k
  matching_only entries mac k h here others =
      elim (scan_matching max_connect_token_entries entries mac 0 (start C)) [
        | inl (e, rest) ↦ absurd (true≢false (sym here ∙ rest k (omega arith) h))
        | inr (k', e, l) ↦ elim (ℕ_discrete k' k) [
          | yes p ↦ e ∙ ap some p
          | no p ↦ absurd (true≢false (sym l.passes ∙ others k' l.below p))
        ]
      ]

  -- A new token is in the place that it took, and nowhere else.
  matching_new :
      (entries : List (ConnectTokenEntry C)) (mac : List ℕ) (k : ℕ) (a : Address) (time : Time)
      → length entries ≡ max_connect_token_entries
      → k < max_connect_token_entries
      → ((j : ℕ) → j < max_connect_token_entries → has_mac entries mac j ≡ false)
      → matching max_connect_token_entries
          (set entries k (record { time = time; mac = mac; address = a }))
          mac
          0
          (start C)
        ≡ some k
  unfolding has_mac
  matching_new entries mac k a time size h nowhere =
      matching_only (set entries k e) mac k h
        (rw (get_or-set_self entries k e (blank C) (omega arith)) (same_parts_refl 16 mac 0))
        (λ j hj ne. rw (get_or-set_ne entries k j e (blank C) (omega arith)) (nowhere j hj))
    where
      e : ConnectTokenEntry C
      e = record { time = time; mac = mac; address = a }

  outcome : Result (Bool × List (ConnectTokenEntry C)) → Bool × List (ConnectTokenEntry C)
  outcome (ok r) = r
  outcome invalid = (false, [])
  outcome fault = (false, [])

  ok_injective : (x y : Bool × List (ConnectTokenEntry C)) → ok x ≡ ok y → x ≡ y
  unfolding outcome
  ok_injective x y e = ap outcome e

  -- In a list with all its places, a token that is let in, as new or as known from that address, is at the next lookup of
  -- it, with none of another in between, let in exactly from the addresses equal to it.
  pub find_or_add-again :
      (entries entries' : List (ConnectTokenEntry C)) (a b : Address) (mac : List ℕ)
      (time time' : Time)
      → length entries ≡ max_connect_token_entries
      → find_or_add C entries a mac time ≡ ok (true, entries')
      → find_or_add C entries' b mac time' ≡ ok (address_equal a b, entries')
  find_or_add-again entries entries' a b mac time time' size e =
      elim (scan_matching max_connect_token_entries entries mac 0 (start C)) [
        | inr (k, f, l) ↦
            let same = ok_injective _ _ (sym (answer_found entries mac k a time l.below f) ∙ e) in
            subst (λ es. find_or_add C es b mac time' ≡ ok (address_equal a b, es))
              (ap (λ r. r.1) same)
              (answer_found entries mac k b time' l.below f
                ∙ ap (λ r. ok (r, entries))
                    (address_equal_common (get_or entries k (blank C)).address a b
                      (ap (λ r. r.0) same)))
        | inl (f, nowhere) ↦ new f nowhere (scan_oldest entries mac)
      ]
    where
      new :
          matching max_connect_token_entries entries mac 0 (start C) ≡ none
          → ((j : ℕ) → 0 ≤ j → j < 0 + max_connect_token_entries → has_mac entries mac j ≡ false)
          → (k : ℕ) × (oldest max_connect_token_entries entries mac 0 (start C) ≡ some k)
            × (k < max_connect_token_entries)
          → find_or_add C entries' b mac time' ≡ ok (address_equal a b, entries')
      new f nowhere (k, o, h) =
          subst (λ es. find_or_add C es b mac time' ≡ ok (address_equal a b, es))
            (ap (λ r. r.1) (ok_injective _ _ (sym (answer_new entries mac k a time h f o) ∙ e)))
            (answer_found (set entries k (record { time = time; mac = mac; address = a })) mac k b
                time' h
                (matching_new entries mac k a time size h (λ j hj. nowhere j (omega arith) hj))
              ∙ ap
                  (λ x. ok (
                    address_equal x.address b,
                    set entries k (record { time = time; mac = mac; address = a }),
                  ))
                  (get_or-set_self entries k (record { time = time; mac = mac; address = a })
                    (blank C) (omega arith)))

  -- The list afterwards: as it was, or with the new entry in one place of the array.
  abbrev pub IsUpdated :
      List (ConnectTokenEntry C) → ConnectTokenEntry C → Bool × List (ConnectTokenEntry C) → Type 0
  IsUpdated entries e r =
      (r.1 ≡ entries)
      ⊎ ((r.0 ≡ true) × ((k : ℕ) × (k < max_connect_token_entries) × (r.1 ≡ set entries k e)))

  -- Every place that is read or written to is one of the array.
  pub find_or_add-in_array :
      (entries : List (ConnectTokenEntry C)) (a : Address) (mac : List ℕ) (time : Time)
      → (r : Bool × List (ConnectTokenEntry C)) × (find_or_add C entries a mac time ≡ ok r)
        × IsUpdated entries (record { time = time; mac = mac; address = a }) r
  find_or_add-in_array entries a mac time =
      elim (scan_matching max_connect_token_entries entries mac 0 (start C)) [
        | inr (k, f, l) ↦ (_, answer_found entries mac k a time l.below f, inl refl)
        | inl (f, nowhere) ↦
            let (k, o, h) = scan_oldest entries mac in
            (_, answer_new entries mac k a time h f o, inr (refl, (k, h, refl)))
      ]

  -- In a list of 2048 entries, no place outside of the array is read or written to; the list stays
  -- as it is, or the token is let in and its entry is put in one of the places; and the list has
  -- 2048 entries again.
  pub find_or_add-ok :
      (entries : List (ConnectTokenEntry C)) (a : Address) (mac : List ℕ) (time : Time)
      → length entries ≡ max_connect_token_entries
      → (r : Bool × List (ConnectTokenEntry C)) × (find_or_add C entries a mac time ≡ ok r)
        × IsUpdated entries (record { time = time; mac = mac; address = a }) r
        × (length r.1 ≡ max_connect_token_entries)
  find_or_add-ok entries a mac time size =
      let (r, found, updated) = find_or_add-in_array entries a mac time in
      (r, found, updated, size_of r updated)
    where
      size_of :
          (r : Bool × List (ConnectTokenEntry C))
          → IsUpdated entries (record { time = time; mac = mac; address = a }) r
          → length r.1 ≡ max_connect_token_entries
      size_of r (inl e) = ap length e ∙ size
      size_of r (inr (t, (k, h, e))) = ap length e ∙ length-set entries k _ ∙ size

  pub reset_size : length (reset C) ≡ max_connect_token_entries
  unfolding reset
  reset_size = length-replicate max_connect_token_entries (blank C)

  blank_mac : (n i : ℕ) → get_or (replicate n (blank C)) i (blank C) ≡ blank C
  blank_mac zero i = refl
  blank_mac (suc n) zero = refl
  blank_mac (suc n) (suc i) = blank_mac n i

  -- In a list that was just reset, a token is let in unless its mac is all 0.
  pub find_or_add-first :
      (a : Address) (mac : List ℕ) (time : Time)
      → same_mac mac (replicate mac_bytes 0) ≡ false
      → (entries' : List (ConnectTokenEntry C)) × (find_or_add C (reset C) a mac time
          ≡ ok (true, entries'))
  unfolding has_mac reset
  find_or_add-first a mac time h =
      elim (scan_matching max_connect_token_entries (reset C) mac 0 (start C)) [
        | inr (k, f, l) ↦ absurd (true≢false (sym l.passes ∙ blank_at k))
        | inl (f, nowhere) ↦
            let (k, o, below) = scan_oldest (reset C) mac in
            (_, answer_new (reset C) mac k a time below f o)
      ]
    where
      blank_at : (k : ℕ) → has_mac (reset C) mac k ≡ false
      blank_at k = ap (λ e. same_mac mac e.mac) (blank_mac max_connect_token_entries k) ∙ h
