-- ===== src/Netcode/Server/Frame/Stopped.antt =====
-- netcode/netcode.c: stopping and starting the server.
use mathlib.Core.Bool.{true≢false}
use yojimbo_cmake.Common.{
  ℕ, zero, suc, ◌<◌, ◌≤◌, ◌≡◌, refl, sym, ap, ◌∙◌, Bool, true, false, not, ◌&&◌, Bool-cases, inl,
  inr, List, [], ◌∷◌, length, get_or, dec_lt, if_false, replicate, length-replicate, arith,
}
use yojimbo_cmake.Common.Results.{ok, ◌>>=◌, Yields, Yields-bind, Yields-and, Yields-unless}
use yojimbo_cmake.Netcode.PacketQueue
use yojimbo_cmake.Netcode.PacketQueue.Fifo.{init-IsValid}
use yojimbo_cmake.Netcode.Replay.Accepted.{reset-IsValid}
use yojimbo_cmake.Netcode.Address.{Address}
use yojimbo_cmake.Netcode.Crypto.{Sodium, IsAead}
use yojimbo_cmake.Netcode.Client.{Timer}
use yojimbo_cmake.Netcode.Server.{Slot, Server, empty_slot, slot, create}
use yojimbo_cmake.Netcode.Server.Slots.{
  disconnect_from, disconnect_all_clients, stop, init_queues, start,
}
use yojimbo_cmake.Netcode.Server.Sound.{num_connected, SlotIsSound, SlotsAreSound, IsSound}
use yojimbo_cmake.Netcode.Server.Sound.Changes.{num_connected-vacate}
use yojimbo_cmake.Netcode.Server.Sound.Rounds.{both, disconnect_from-Yields}
use yojimbo_cmake.Netcode.Server.Frame.Sweep.{Swept, is_network_client, disconnect_from-Swept}

no_network : (a b : Bool) → (a && not b) ≡ false → (a ≡ true → b ≡ false) → a ≡ false
no_network false b f h = refl
no_network true true f h = absurd (true≢false (h refl))
no_network true false f h = f

module _ (T : Timer) where
  -- No slot is in use.
  pub record IsIdle (s : Server T) : Type 0 where
    pub size : length s.slots ≡ 256
    pub each : (i : ℕ) → SlotIsSound T (slot T s i)
    pub free : (i : ℕ) → (slot T s i).connected ≡ false

  -- A server that was stopped.
  pub record IsStopped (S : Sodium) (s s' : Server T) : Type 0 where
    pub not_running : s'.running ≡ false
    pub num_clients : s'.num_connected_clients ≡ 0
    pub size : length s'.slots ≡ length s.slots
    pub each : (i : ℕ) → SlotIsSound T (slot T s' i)
    pub gone :
        (j : ℕ)
        → j < s.max_clients
        → is_network_client T S s j ≡ true
        → (slot T s' j).connected ≡ false
    pub others : (j : ℕ) → is_network_client T S s j ≡ false → slot T s' j ≡ slot T s j

  init_queues-slot :
      (S : Sodium) (P : Slot T → Type 0)
      → ((c : Slot T) → P c → P (record c { packet_queue = PacketQueue.init }))
      → (m : ℕ) (slots : List (Slot T)) (i : ℕ) → P (get_or slots i (empty_slot T))
      → P (get_or (init_queues T S m slots) i (empty_slot T))
  unfolding init_queues
  init_queues-slot S P k zero slots i h = h
  init_queues-slot S P k (suc m) [] i h = h
  init_queues-slot S P k (suc m) (c ∷ slots) zero h = k c h
  init_queues-slot S P k (suc m) (c ∷ slots) (suc i) h = init_queues-slot S P k m slots i h

  length-init_queues :
      (S : Sodium) (m : ℕ) (slots : List (Slot T)) → length (init_queues T S m slots) ≡ length slots
  unfolding init_queues
  length-init_queues S zero slots = refl
  length-init_queues S (suc m) [] = refl
  length-init_queues S (suc m) (c ∷ slots) = ap suc (length-init_queues S m slots)

  num_connected-none :
      (m : ℕ) (slots : List (Slot T))
      → ((i : ℕ) → (get_or slots i (empty_slot T)).connected ≡ false)
      → num_connected T m slots ≡ 0
  num_connected-none zero slots h = refl
  num_connected-none (suc m) [] h = refl
  num_connected-none (suc m) (c ∷ slots) h =
      rw (h 0) (omega (arith, num_connected-none m slots (λ i. h (suc i))))

  -- Starting a server that is not running and has no clients makes it sound.
  pub start-IsSound :
      (S : Sodium) (s : Server T) (m : ℕ) (key : List ℕ)
      → IsIdle s
      → s.running ≡ false
      → m ≤ 256
      → Yields (IsSound T m) (start T S s m key)
  unfolding start
  start-IsSound S s m key v f h =
      rw (if_false s.running (stop T S s) (ok s) f, Yields)
        (record {
          slots = record {
            size = length-init_queues S m s.slots ∙ v.size;
            open_size = h;
            counted = sym (num_connected-none m (init_queues T S m s.slots) free);
            each = λ i.
                init_queues-slot S (SlotIsSound T)
                  (λ c w. record {
                    indexed = w.indexed;
                    replay_size = w.replay_size;
                    queue = init-IsValid;
                  })
                  m s.slots i (v.each i);
            apart = λ i j lt lt' ne u. absurd (true≢false (sym u ∙ free i));
          };
          open_slots = refl;
        })
    where
      free : (i : ℕ) → (get_or (init_queues T S m s.slots) i (empty_slot T)).connected ≡ false
      free i = init_queues-slot S (λ c. c.connected ≡ false) (λ c e. e) m s.slots i (v.free i)

  pub empty-IsSound : SlotIsSound T (empty_slot T)
  empty-IsSound = record {
    indexed = λ u. absurd (true≢false (sym u));
    replay_size = reset-IsValid.size;
    queue = init-IsValid;
  }

  pub empty_at : (k i : ℕ) → get_or (replicate k (empty_slot T)) i (empty_slot T) ≡ empty_slot T
  empty_at zero i = refl
  empty_at (suc k) zero = refl
  empty_at (suc k) (suc i) = empty_at k i

  -- A server that was just created, started for at most 256 clients, is sound.
  pub create_start-IsSound :
      (S : Sodium) (has_simulator overrides : Bool) (protocol_id : ℕ) (private_key : List ℕ)
      (address : Address) (time : T.clock.Time) (m : ℕ) (key : List ℕ)
      → m ≤ 256
      → Yields
          (IsSound T m)
          (start T S (create T has_simulator overrides protocol_id private_key address time) m key)
  unfolding create
  create_start-IsSound S has_simulator overrides protocol_id private_key address time m key h =
      start-IsSound S _ m key
        (record {
          size = length-replicate 256 (empty_slot T);
          each = λ i. rw (empty_at 256 i) empty-IsSound;
          free = λ i. ap (λ c. c.connected) (empty_at 256 i);
        })
        refl h

  module _ (n : ℕ) (S : Sodium) (sound : IsAead S.encrypt S.decrypt)
      (sound' : IsAead S.encrypt_bignonce S.decrypt_bignonce) where
    -- With an encryption as documented, `netcode_server_stop` on a sound server that runs goes
    -- through, disconnects the network clients in its open slots, and leaves the other slots as they
    -- are.
    pub stop_lem :
        (s : Server T) → IsSound T n s → s.running ≡ true → Yields (IsStopped S s) (stop T S s)
    unfolding stop disconnect_all_clients
    stop_lem s v r = Yields-unless (IsStopped S s) s.running (ok s) _ r (
        Yields-bind Both (IsStopped S s) _ _
          (Yields-unless Both s.running (ok s) (disconnect_from T S s.max_clients s 0) r (
            Yields-and (IsSound T n) (Swept T (is_network_client T S) s.max_clients 0 s)
              (disconnect_from T S s.max_clients s 0)
              (disconnect_from-Yields T n S sound sound' s.max_clients s 0 v
                (omega (arith, v.open_slots)))
              (disconnect_from-Swept T S s.max_clients s 0
                (omega (arith, v.open_slots, v.slots.size, v.slots.open_size)))))
          λ s' (v', w). record {
            not_running = refl;
            num_clients = refl;
            size = w.size;
            each = v'.slots.each;
            gone = λ j lt t. w.gone j (omega arith) (omega arith) t;
            others = w.kept;
          })
      where
        Both : Server T → Type 0
        Both s' = IsSound T n s' × Swept T (is_network_client T S) s.max_clients 0 s s'

    -- With an encryption as documented, a sound server that runs without loopback clients, and with
    -- no client behind its open slots, is sound after it is stopped and started again for at most 256
    -- clients.
    pub restart-IsSound :
        (s : Server T) (m : ℕ) (key : List ℕ)
        → IsSound T n s
        → s.running ≡ true
        → m ≤ 256
        → ((j : ℕ) → (slot T s j).connected ≡ true → (slot T s j).loopback ≡ false)
        → ((j : ℕ) → n ≤ j → (slot T s j).connected ≡ false)
        → Yields (IsSound T m) (stop T S s >>= λ s'. start T S s' m key)
    restart-IsSound s m key v r h none_loopback none_past =
        Yields-bind (IsStopped S s) (IsSound T m) (stop T S s) _ (stop_lem s v r) λ s' w.
          start-IsSound S s' m key
            (record { size = w.size ∙ v.slots.size; each = w.each; free = λ j. all_free s' w j })
            w.not_running h
      where
        all_free : (s' : Server T) → IsStopped S s s' → (j : ℕ) → (slot T s' j).connected ≡ false
        all_free s' w j = elim (Bool-cases (is_network_client T S s j)) [
          | inr f ↦
              ap (λ c. c.connected) (w.others j f)
              ∙ no_network (slot T s j).connected (slot T s j).loopback f (none_loopback j)
          | inl t ↦ elim (dec_lt j n) [
            | yes lt ↦ w.gone j (omega (arith, v.open_slots)) t
            | no ge ↦ absurd (
                true≢false (
                  sym (both (slot T s j).connected (not (slot T s j).loopback) t).0
                  ∙ none_past j (omega arith)))
          ]
        ]

    -- With an encryption as documented, a loopback client in a slot of a sound server that runs stays
    -- there when the server is stopped and started again for at most 256 clients, with this slot
    -- among the open ones, but it is no longer counted: the server is not sound.
    pub restart_loopback :
        (s : Server T) (m : ℕ) (key : List ℕ) (i : ℕ)
        → IsSound T n s
        → s.running ≡ true
        → i < m
        → m ≤ 256
        → (slot T s i).connected ≡ true
        → (slot T s i).loopback ≡ true
        → Yields
            (λ s'.
              ((slot T s' i).connected ≡ true) × (s'.num_connected_clients ≡ 0) × ¬ IsSound T m s')
            (stop T S s >>= λ s'. start T S s' m key)
    unfolding start
    restart_loopback s m key i v r lt h in_use is_loopback =
        Yields-bind (IsStopped S s) _ (stop T S s) _ (stop_lem s v r) λ s' w.
          let still : (get_or (init_queues T S m s'.slots) i (empty_slot T)).connected ≡ true =
            init_queues-slot S (λ c. c.connected ≡ true) (λ c e. e) m s'.slots i
              (ap (λ c. c.connected) (w.others i loopback_stays) ∙ in_use) in
          rw (if_false s'.running (stop T S s') (ok s') w.not_running, Yields)
            (still, refl, λ v'. miscounted (init_queues T S m s'.slots) still v'.slots)
      where
        loopback_stays : is_network_client T S s i ≡ false
        loopback_stays = rw (is_loopback, in_use) refl

        miscounted :
            (slots : List (Slot T))
            → (get_or slots i (empty_slot T)).connected ≡ true
            → SlotsAreSound T m 0 slots
            → ⊥
        miscounted slots still v' = omega (
          arith,
          v'.counted,
          num_connected-vacate T m slots i (λ c. record c { connected = false }) lt
              (omega (arith, v'.size)) still (λ c. refl),
        )
