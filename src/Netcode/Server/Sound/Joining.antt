-- ===== src/Netcode/Server/Sound/Joining.antt =====
-- netcode/netcode.c: a client that is let into a slot of the server.
use mathlib.Core.Bool.{true≢false}
use yojimbo_cmake.Common.{
  ℕ, ◌+◌, ◌%◌, ◌^◌, ◌<◌, ◌≡◌, refl, sym, ◌∙◌, Bool, true, false, not, ◌&&◌, inl, inr, Bool-cases,
  none, some, Option-cases, List, ◌==◌, ==_ne, get_or, modify, get_or-modify_self, arith,
}
use yojimbo_cmake.Common.Int.{ℤ}
use yojimbo_cmake.Common.Search.{first-none, first-some}
use yojimbo_cmake.Common.Results.{Yields, Yields-bind}
use yojimbo_cmake.Netcode.Address.{Address, is_none, address_equal, address_equal_none}
use yojimbo_cmake.Netcode.Crypto.{Sodium, IsAead}
use yojimbo_cmake.Netcode.Packet.{keep_alive}
use yojimbo_cmake.Netcode.Client.{Timer}
use yojimbo_cmake.Netcode.Server.{Server, empty_slot, slot}
use yojimbo_cmake.Netcode.Server.Slots.{
  find_client_index_by_id, find_client_index_by_address, find_free_client_index, send_client_packet,
}
use yojimbo_cmake.Netcode.Server.Connecting.{connected_slot, connect_client}
use yojimbo_cmake.Netcode.Server.Sound.{IsSound}
use yojimbo_cmake.Netcode.Server.Sound.Changes.{
  address_equal_sym, num_connected-full, modify-occupy,
}
use yojimbo_cmake.Netcode.Server.Sound.Sending.{HasClient, send_client_packet-Yields}
use yojimbo_cmake.Netcode.Server.Sound.Rounds.{negates}

fails : (a b : Bool) → (a && b) ≡ false → a ≡ true → b ≡ false
fails true b h u = h
fails false b h u = absurd (true≢false (sym u))

-- `not b ≡ false` as an equation for `b`.
affirms : (b : Bool) → not b ≡ false → b ≡ true
affirms true h = refl
affirms false h = absurd (true≢false h)

module _ (T : Timer) (n : ℕ) where
  -- No client in the slots has this id, or this address.
  abbrev pub IsNew : Server T → ℕ → Address → Type 0
  IsNew s client_id address =
      (j : ℕ)
      → j < n
      → (slot T s j).connected ≡ true
      → ((client_id == (slot T s j).client_id) ≡ false)
        × (address_equal address (slot T s j).address ≡ false)

  unknown_id :
      (s : Server T) (client_id : ℕ)
      → IsSound T n s
      → find_client_index_by_id T s client_id ≡ none
      → (j : ℕ) → j < n
      → (slot T s j).connected ≡ true
      → (client_id == (slot T s j).client_id) ≡ false
  unfolding find_client_index_by_id
  unknown_id s client_id v e j lt u = (==_ne client_id (slot T s j).client_id).1 (λ same.
      (==_ne (slot T s j).client_id client_id).0
        (fails (slot T s j).connected _
          (first-none (λ i. (slot T s i).connected && (slot T s i).client_id == client_id)
            s.max_clients 0 e j (omega arith) (omega (arith, v.open_slots)))
          u)
        (sym same))

  unknown_address :
      (s : Server T) (address : Address)
      → IsSound T n s
      → find_client_index_by_address T s address ≡ none
      → (j : ℕ) → j < n
      → (slot T s j).connected ≡ true
      → address_equal address (slot T s j).address ≡ false
  unfolding find_client_index_by_address
  unknown_address s address v e j lt u = elim (Bool-cases (is_none address)) [
    | inl t ↦ address_equal_none address (slot T s j).address t
    | inr f ↦ address_equal_sym (slot T s j).address address (
        fails (slot T s j).connected _
          (first-none (λ i. (slot T s i).connected && address_equal (slot T s i).address address)
            s.max_clients 0 (rw f at e) j (omega arith) (omega (arith, v.open_slots)))
          u)
  ]

  -- A client that both searches miss is new.
  pub missed-IsNew :
      (s : Server T) (client_id : ℕ) (address : Address)
      → IsSound T n s
      → find_client_index_by_id T s client_id ≡ none
      → find_client_index_by_address T s address ≡ none
      → IsNew s client_id address
  missed-IsNew s client_id address v e f j lt u =
      (unknown_id s client_id v e j lt u, unknown_address s address v f j lt u)

  -- With fewer clients than open slots, a slot is found that is not in use.
  pub find_free_lem :
      (s : Server T)
      → IsSound T n s
      → (s.num_connected_clients == s.max_clients) ≡ false
      → (i : ℕ) × (find_free_client_index T s ≡ some i) × (i < n) × ((slot T s i).connected ≡ false)
  unfolding find_free_client_index
  find_free_lem s v room = elim (Option-cases (find_free_client_index T s)) [
    | inl e ↦ absurd (
        (==_ne s.num_connected_clients s.max_clients).0 room (
          v.slots.counted
          ∙ num_connected-full T n s.slots (omega (arith, v.slots.size, v.slots.open_size)) (λ i lt.
            affirms (slot T s i).connected (
              first-none (λ i. not (slot T s i).connected) s.max_clients 0 e i (omega arith)
                (omega (arith, v.open_slots))))
          ∙ sym v.open_slots))
    | inr (i, e) ↦
        let found = first-some (λ i. not (slot T s i).connected) s.max_clients 0 i e in
        (
          i,
          e,
          omega (arith, found.below, v.open_slots),
          negates (slot T s i).connected found.passes,
        )
  ]

  -- A new client in a free slot keeps the server sound.
  pub joined-HasClient :
      (S : Sodium) (s s' : Server T) (i : ℕ) (address : Address) (client_id e : ℕ) (timeout : ℤ)
      (user_data : List ℕ)
      → IsSound T n s
      → i < n
      → (slot T s i).connected ≡ false
      → IsNew s client_id address
      → s'.slots ≡ modify s.slots i (connected_slot T S s address client_id e timeout user_data)
      → s'.num_connected_clients ≡ (s.num_connected_clients + 1) % 2 ^ 32
      → s'.max_clients ≡ s.max_clients
      → HasClient T n i s'
  joined-HasClient S s s' i address client_id e timeout user_data v lt free new es en em = record {
    sound = record {
      slots =
          rw (es, en)
            (modify-occupy T n s.num_connected_clients s.slots i _ v.slots lt free (λ c. refl)
              (λ c w. record {
                indexed = λ u. inl (e, refl);
                replay_size = w.replay_size;
                queue = w.queue;
              })
              (λ j below ne u u'. new j below u'));
      open_slots = em ∙ v.open_slots;
    };
    below = lt;
    connected = rw (es, there) refl;
    index = (e, rw (es, there) refl);
  }
    where
      there :
          get_or
            (modify s.slots i (connected_slot T S s address client_id e timeout user_data))
            i
            (empty_slot T)
          ≡ connected_slot T S s address client_id e timeout user_data (slot T s i)
      there =
          get_or-modify_self s.slots i (connected_slot T S s address client_id e timeout user_data)
            (empty_slot T) (omega (arith, v.slots.size, v.slots.open_size))

  module _ (S : Sodium) (sound : IsAead S.encrypt S.decrypt)
      (sound' : IsAead S.encrypt_bignonce S.decrypt_bignonce) where
    pub connect_client-Yields :
        (s : Server T) (i : ℕ) (address : Address) (client_id e : ℕ) (timeout : ℤ)
        (user_data : List ℕ)
        → IsSound T n s
        → i < n
        → (slot T s i).connected ≡ false
        → IsNew s client_id address
        → Yields (HasClient T n i) (connect_client T S s i address client_id e timeout user_data)
    unfolding connect_client
    connect_client-Yields s i address client_id e timeout user_data v lt free new =
        Yields-bind (HasClient T n i) (HasClient T n i)
          (send_client_packet T S _ (keep_alive i s.max_clients) i) _
          (send_client_packet-Yields T n S sound sound' _ (keep_alive i s.max_clients) i
            (joined-HasClient S s _ i address client_id e timeout user_data v lt free new refl refl
              refl)
            tt)
          λ s' v'. record {
            sound = record { slots = v'.sound.slots; open_slots = v'.sound.open_slots };
            below = v'.below;
            connected = v'.connected;
            index = v'.index;
          }
