-- ===== src/Netcode/Server/Sound/Rounds.antt =====
-- netcode/netcode.c: the loops of the server over its clients.
use mathlib.Core.Bool.{true≢false}
use yojimbo_cmake.Common.{
  ℕ, zero, suc, ◌+◌, ◌<◌, ◌≤◌, ◌≡◌, refl, sym, ◌∙◌, Bool, true, false, not, ◌&&◌, inl, inr, arith,
}
use yojimbo_cmake.Common.Int.{ltb_ℤ}
use yojimbo_cmake.Common.Results.{Yields, Yields-bind, Yields-when, Yields-weaken}
use yojimbo_cmake.Netcode.Address.{is_none}
use yojimbo_cmake.Netcode.Crypto.{Sodium, IsAead}
use yojimbo_cmake.Netcode.Packet.{keep_alive}
use yojimbo_cmake.Netcode.Client.{Timer}
use yojimbo_cmake.Netcode.Server.{Server, slot}
use yojimbo_cmake.Netcode.Server.Slots.{
  disconnect_from, disconnect_all_clients, disconnect_client_internal, send_client_packet,
}
use yojimbo_cmake.Netcode.Server.Update.{
  keep_alive_due, send_from, send_packets, client_timed_out, check_from, check_for_timeouts,
}
use yojimbo_cmake.Netcode.Server.Sound.{IsSound}
use yojimbo_cmake.Netcode.Server.Sound.Sending.{
  HasClient, send_client_packet-Yields, disconnect_client_internal-Yields,
}

pub both : (a b : Bool) → (a && b) ≡ true → (a ≡ true) × (b ≡ true)
both true b h = (refl, h)
both false b h = absurd (true≢false (sym h))

pub negates : (b : Bool) → not b ≡ true → b ≡ false
negates true h = sym h
negates false h = refl

module _ (T : Timer) (n : ℕ) where
  -- The slot of a client that is not a loopback one.
  pub network-HasClient :
      (s : Server T) (i : ℕ)
      → IsSound T n s
      → i < n
      → (slot T s i).connected ≡ true
      → (slot T s i).loopback ≡ false
      → HasClient T n i s
  network-HasClient s i v lt c l = elim ((v.slots.each i).indexed c) [
    | inl index ↦ record { sound = v; below = lt; connected = c; index = index }
    | inr (yes_loopback, no_address) ↦ absurd (true≢false (sym yes_loopback ∙ l))
  ]

  -- The slot of a client that has an address.
  pub address-HasClient :
      (s : Server T) (i : ℕ)
      → IsSound T n s
      → i < n
      → (slot T s i).connected ≡ true
      → is_none (slot T s i).address ≡ false
      → HasClient T n i s
  address-HasClient s i v lt c l = elim ((v.slots.each i).indexed c) [
    | inl index ↦ record { sound = v; below = lt; connected = c; index = index }
    | inr (yes_loopback, no_address) ↦ absurd (true≢false (sym no_address ∙ l))
  ]

  module _ (S : Sodium) (sound : IsAead S.encrypt S.decrypt)
      (sound' : IsAead S.encrypt_bignonce S.decrypt_bignonce) where
    pub disconnect_from-Yields :
        (rounds : ℕ) (s : Server T) (i : ℕ)
        → IsSound T n s
        → i + rounds ≤ n
        → Yields (IsSound T n) (disconnect_from T S rounds s i)
    unfolding disconnect_from
    disconnect_from-Yields zero s i v h = v
    disconnect_from-Yields (suc rounds) s i v h =
        Yields-bind (IsSound T n) (IsSound T n) _ _
          (Yields-when (IsSound T n) ((slot T s i).connected && not (slot T s i).loopback)
            (disconnect_client_internal T S s i true) _
            (λ t.
              let (c, l) = both (slot T s i).connected (not (slot T s i).loopback) t in
              disconnect_client_internal-Yields T n S sound sound' s i true
                (network-HasClient s i v (omega arith) c (negates (slot T s i).loopback l)))
            v)
          λ s' v'. disconnect_from-Yields rounds s' (i + 1) v' (omega arith)

    pub disconnect_all_clients-Yields :
        (s : Server T) → IsSound T n s → Yields (IsSound T n) (disconnect_all_clients T S s)
    unfolding disconnect_all_clients
    disconnect_all_clients-Yields s v =
        Yields-when (IsSound T n) (not s.running) _ (disconnect_from T S s.max_clients s 0) (λ e. v)
          (disconnect_from-Yields s.max_clients s 0 v (omega (arith, v.open_slots)))

    send_from-Yields :
        (rounds : ℕ) (s : Server T) (i : ℕ)
        → IsSound T n s
        → i + rounds ≤ n
        → Yields (IsSound T n) (send_from T S rounds s i)
    unfolding send_from
    send_from-Yields zero s i v h = v
    send_from-Yields (suc rounds) s i v h =
        Yields-bind (IsSound T n) (IsSound T n) _ _
          (Yields-when (IsSound T n) (keep_alive_due T S s i)
            (send_client_packet T S s (keep_alive i s.max_clients) i) _
            (λ t.
              let (t', due) = both ((slot T s i).connected && not (slot T s i).loopback) _ t in
              let (c, l) = both (slot T s i).connected _ t' in
              Yields-weaken (HasClient T n i) (IsSound T n)
                (send_client_packet T S s (keep_alive i s.max_clients) i)
                (send_client_packet-Yields T n S sound sound' s (keep_alive i s.max_clients) i
                  (network-HasClient s i v (omega arith) c (negates (slot T s i).loopback l)) tt)
                (λ s' v'. v'.sound))
            v)
          λ s' v'. send_from-Yields rounds s' (i + 1) v' (omega arith)

    pub send_packets-Yields :
        (s : Server T) → IsSound T n s → Yields (IsSound T n) (send_packets T S s)
    unfolding send_packets
    send_packets-Yields s v =
        Yields-when (IsSound T n) (not s.running) _ (send_from T S s.max_clients s 0) (λ e. v)
          (send_from-Yields s.max_clients s 0 v (omega (arith, v.open_slots)))

    check_from-Yields :
        (rounds : ℕ) (s : Server T) (i : ℕ)
        → IsSound T n s
        → i + rounds ≤ n
        → Yields (IsSound T n) (check_from T S rounds s i)
    unfolding check_from
    check_from-Yields zero s i v h = v
    check_from-Yields (suc rounds) s i v h =
        Yields-bind (IsSound T n) (IsSound T n) _ _
          (Yields-when (IsSound T n) (client_timed_out T S s i)
            (disconnect_client_internal T S s i false) _
            (λ t.
              let (t', late) =
                both
                  ((slot T s i).connected
                    && ltb_ℤ 0 (slot T s i).timeout
                    && not (slot T s i).loopback)
                  _ t in
              let (t'', l) = both ((slot T s i).connected && ltb_ℤ 0 (slot T s i).timeout) _ t' in
              let (c, positive) = both (slot T s i).connected _ t'' in
              disconnect_client_internal-Yields T n S sound sound' s i false
                (network-HasClient s i v (omega arith) c (negates (slot T s i).loopback l)))
            v)
          λ s' v'. check_from-Yields rounds s' (i + 1) v' (omega arith)

    pub check_for_timeouts-Yields :
        (s : Server T) → IsSound T n s → Yields (IsSound T n) (check_for_timeouts T S s)
    unfolding check_for_timeouts
    check_for_timeouts-Yields s v =
        Yields-when (IsSound T n) (not s.running) _ (check_from T S s.max_clients s 0) (λ e. v)
          (check_from-Yields s.max_clients s 0 v (omega (arith, v.open_slots)))
