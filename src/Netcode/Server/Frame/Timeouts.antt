-- ===== src/Netcode/Server/Frame/Timeouts.antt =====
-- netcode/netcode.c: the clients of the server that time out.
use yojimbo_cmake.Common.{ℕ, ◌<◌, ◌≡◌, true, false, arith}
use yojimbo_cmake.Common.Results.{ok, Returns-weaken, Yields, Yields-Returns, Returns-unless}
use yojimbo_cmake.Netcode.Crypto.{Sodium, IsAead}
use yojimbo_cmake.Netcode.Client.{Timer}
use yojimbo_cmake.Netcode.Server.{Server, slot}
use yojimbo_cmake.Netcode.Server.Update.{client_timed_out, check_from, check_for_timeouts}
use yojimbo_cmake.Netcode.Server.Sound.{IsSound}
use yojimbo_cmake.Netcode.Server.Sound.Rounds.{check_for_timeouts-Yields}
use yojimbo_cmake.Netcode.Server.Frame.Sweep.{Swept, check_from-Swept}

module _ (T : Timer) where
  -- Which clients a check has disconnected.
  pub record Checked (S : Sodium) (s s' : Server T) : Type 0 where
    pub none_late : (j : ℕ) → j < s.max_clients → client_timed_out T S s' j ≡ false
    pub gone :
        (j : ℕ)
        → j < s.max_clients
        → client_timed_out T S s j ≡ true
        → (slot T s' j).connected ≡ false
    pub kept : (j : ℕ) → client_timed_out T S s j ≡ false → slot T s' j ≡ slot T s j

  module _ (n : ℕ) (S : Sodium) (sound : IsAead S.encrypt S.decrypt)
      (sound' : IsAead S.encrypt_bignonce S.decrypt_bignonce) where
    -- With an encryption as documented, `netcode_server_check_for_timeouts` on a sound server that
    -- runs goes through: the clients in open slots that had timed out are gone, none there has timed
    -- out afterwards, and the slots whose client had not are as they were.
    pub check_for_timeouts_lem :
        (s : Server T)
        → IsSound T n s
        → s.running ≡ true
        → Yields (Checked S s) (check_for_timeouts T S s)
    unfolding check_for_timeouts
    check_for_timeouts_lem s v r =
        Yields-Returns (IsSound T n) (Checked S s) (check_for_timeouts T S s)
          (check_for_timeouts-Yields T n S sound sound' s v)
          (Returns-unless (Checked S s) s.running (ok s) (check_from T S s.max_clients s 0) r (
            Returns-weaken (Swept T (client_timed_out T S) s.max_clients 0 s) (Checked S s)
              (check_from T S s.max_clients s 0)
              (check_from-Swept T S s.max_clients s 0
                (omega (arith, v.open_slots, v.slots.size, v.slots.open_size)))
              λ s' w. record {
                none_late = λ j lt. w.quiet j (omega arith) (omega arith);
                gone = λ j lt t. w.gone j (omega arith) (omega arith) t;
                kept = w.kept;
              }))
