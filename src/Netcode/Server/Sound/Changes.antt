-- ===== src/Netcode/Server/Sound/Changes.antt =====
-- netcode/netcode.c: a client that comes to a slot of the server or goes from it.
use yojimbo_cmake.Common.{
  ℕ, zero, suc, ◌+◌, ◌%◌, ◌^◌, ◌≤◌, ◌<◌, ◌≡◌, ◌≢◌, refl, sym, subst, ◌∙◌, true, false, inl, inr,
  Bool-cases, List, [], ◌∷◌, ==_ne, length, get_or, modify, length-modify, get_or-modify_self,
  get_or-modify_ne, ℕ_discrete, arith,
}
use mathlib.Core.Bool.{true≢false}
use yojimbo_cmake.Netcode.Address.{
  Address, address_equal, is_none, address_equal_none, address_equal_refl, address_equal_common,
}
use yojimbo_cmake.Netcode.Client.{Timer}
use yojimbo_cmake.Netcode.Server.{Slot, empty_slot}
use yojimbo_cmake.Netcode.Server.Slots.{decremented}
use yojimbo_cmake.Netcode.Server.Sound.{num_connected, Apart, SlotIsSound, SlotsAreSound}

pub address_equal_sym : (a b : Address) → address_equal a b ≡ false → address_equal b a ≡ false
address_equal_sym a b h = elim (Bool-cases (address_equal b a)) [
  | inr f ↦ f
  | inl t ↦
      absurd
        (true≢false (sym (address_equal_refl b (has_type t)) ∙ address_equal_common b a b t ∙ h))
]
  where
    has_type : address_equal b a ≡ true → is_none b ≡ false
    has_type t = elim (Bool-cases (is_none b)) [
      | inr f ↦ f
      | inl u ↦ absurd (true≢false (sym t ∙ address_equal_none b a u))
    ]

module _ (T : Timer) where
  Apart-sym : (c d : Slot T) → Apart T c d → Apart T d c
  Apart-sym c d h u u' =
      let (ids, addresses) = h u' u in
      (
        (==_ne d.client_id c.client_id).1 (λ e. (==_ne c.client_id d.client_id).0 ids (sym e)),
        address_equal_sym c.address d.address addresses,
      )

  pub num_connected-vacate :
      (n : ℕ) (xs : List (Slot T)) (i : ℕ) (f : Slot T → Slot T)
      → i < n
      → i < length xs
      → (get_or xs i (empty_slot T)).connected ≡ true
      → ((c : Slot T) → (f c).connected ≡ false)
      → suc (num_connected T n (modify xs i f)) ≡ num_connected T n xs
  num_connected-vacate zero xs i f h h' u k = absurd (omega arith)
  num_connected-vacate (suc n) [] i f h h' u k = absurd (omega arith)
  num_connected-vacate (suc n) (c ∷ xs) zero f h h' u k = rw (k c, u) (omega arith)
  num_connected-vacate (suc n) (c ∷ xs) (suc i) f h h' u k =
      omega (arith, num_connected-vacate n xs i f (omega arith) (omega arith) u k)

  num_connected-occupy :
      (n : ℕ) (xs : List (Slot T)) (i : ℕ) (f : Slot T → Slot T)
      → i < n
      → i < length xs
      → (get_or xs i (empty_slot T)).connected ≡ false
      → ((c : Slot T) → (f c).connected ≡ true)
      → num_connected T n (modify xs i f) ≡ suc (num_connected T n xs)
  num_connected-occupy zero xs i f h h' u k = absurd (omega arith)
  num_connected-occupy (suc n) [] i f h h' u k = absurd (omega arith)
  num_connected-occupy (suc n) (c ∷ xs) zero f h h' u k = rw (k c, u) (omega arith)
  num_connected-occupy (suc n) (c ∷ xs) (suc i) f h h' u k =
      omega (arith, num_connected-occupy n xs i f (omega arith) (omega arith) u k)

  pub num_connected-le : (n : ℕ) (xs : List (Slot T)) → num_connected T n xs ≤ n
  num_connected-le zero xs = omega arith
  num_connected-le (suc n) [] = omega arith
  num_connected-le (suc n) (c ∷ xs) = elim (Bool-cases c.connected) [
    | inl e ↦ rw e (omega (arith, num_connected-le n xs))
    | inr e ↦ rw e (omega (arith, num_connected-le n xs))
  ]

  -- If all open slots are in use, their number is that of the clients.
  pub num_connected-full :
      (n : ℕ) (xs : List (Slot T))
      → n ≤ length xs
      → ((i : ℕ) → i < n → (get_or xs i (empty_slot T)).connected ≡ true)
      → num_connected T n xs ≡ n
  num_connected-full zero xs h k = refl
  num_connected-full (suc n) [] h k = absurd (omega arith)
  num_connected-full (suc n) (c ∷ xs) h k =
      rw (k 0 (omega arith))
        (omega (arith, num_connected-full n xs (omega arith) (λ i lt. k (suc i) (omega arith))))

  modify-at :
      (n num num' : ℕ) (xs : List (Slot T)) (i : ℕ) (f : Slot T → Slot T)
      → SlotsAreSound T n num xs
      → i < n
      → num' ≡ num_connected T n (modify xs i f)
      → SlotIsSound T (f (get_or xs i (empty_slot T)))
      → ((j : ℕ)
          → j < n
          → i ≢ j
          → Apart T (f (get_or xs i (empty_slot T))) (get_or xs j (empty_slot T)))
      → SlotsAreSound T n num' (modify xs i f)
  modify-at n num num' xs i f v lt count sound new = record {
    size = length-modify xs i f ∙ v.size;
    open_size = v.open_size;
    counted = count;
    each = λ j. elim (ℕ_discrete i j) [
      | yes e ↦
          subst (λ k. SlotIsSound T (get_or (modify xs i f) k (empty_slot T))) e (rw there sound)
      | no ne ↦ rw (get_or-modify_ne xs i j f (empty_slot T) ne) (v.each j)
    ];
    apart = λ j j' h h' ne. elim (ℕ_discrete i j) [
      | yes e ↦
          subst
            (λ k.
              Apart T (get_or (modify xs i f) k (empty_slot T))
                (get_or (modify xs i f) j' (empty_slot T)))
            e (beside j' h' (λ e'. ne (sym e ∙ e')))
      | no off ↦ elim (ℕ_discrete i j') [
        | yes e ↦
            subst
              (λ k.
                Apart T (get_or (modify xs i f) j (empty_slot T))
                  (get_or (modify xs i f) k (empty_slot T)))
              e
              (Apart-sym (get_or (modify xs i f) i (empty_slot T))
                (get_or (modify xs i f) j (empty_slot T)) (beside j h off))
        | no off' ↦
            rw
              (
                get_or-modify_ne xs i j f (empty_slot T) off,
                get_or-modify_ne xs i j' f (empty_slot T) off',
              )
              (v.apart j j' h h' ne)
      ]
    ];
  }
    where
      there : get_or (modify xs i f) i (empty_slot T) ≡ f (get_or xs i (empty_slot T))
      there = get_or-modify_self xs i f (empty_slot T) (omega (arith, v.size, v.open_size))

      beside :
          (j : ℕ)
          → j < n
          → i ≢ j
          → Apart T
              (get_or (modify xs i f) i (empty_slot T))
              (get_or (modify xs i f) j (empty_slot T))
      beside j h ne = rw (there, get_or-modify_ne xs i j f (empty_slot T) ne) (new j h ne)

  -- The client of a slot goes.
  pub modify-vacate :
      (n num : ℕ) (xs : List (Slot T)) (i : ℕ) (f : Slot T → Slot T)
      → SlotsAreSound T n num xs
      → i < n
      → (get_or xs i (empty_slot T)).connected ≡ true
      → ((c : Slot T) → (f c).connected ≡ false)
      → ((c : Slot T) → SlotIsSound T c → SlotIsSound T (f c))
      → SlotsAreSound T n (decremented num) (modify xs i f)
  modify-vacate n num xs i f v lt used free k =
      modify-at n num (decremented num) xs i f v lt
        (omega (
          arith,
          v.counted,
          num_connected-le n xs,
          v.open_size,
          num_connected-vacate n xs i f lt (omega (arith, v.size, v.open_size)) used free,
        ))
        (k _ (v.each i)) (λ j h ne u. absurd (true≢false (sym u ∙ free _)))

  -- A client comes into a slot that is not in use.
  pub modify-occupy :
      (n num : ℕ) (xs : List (Slot T)) (i : ℕ) (f : Slot T → Slot T)
      → SlotsAreSound T n num xs
      → i < n
      → (get_or xs i (empty_slot T)).connected ≡ false
      → ((c : Slot T) → (f c).connected ≡ true)
      → ((c : Slot T) → SlotIsSound T c → SlotIsSound T (f c))
      → ((j : ℕ)
          → j < n
          → i ≢ j
          → Apart T (f (get_or xs i (empty_slot T))) (get_or xs j (empty_slot T)))
      → SlotsAreSound T n ((num + 1) % 2 ^ 32) (modify xs i f)
  modify-occupy n num xs i f v lt free used k new =
      modify-at n num ((num + 1) % 2 ^ 32) xs i f v lt
        (omega (
          arith,
          v.counted,
          num_connected-le n xs,
          v.open_size,
          num_connected-occupy n xs i f lt (omega (arith, v.size, v.open_size)) free used,
        ))
        (k _ (v.each i)) new
