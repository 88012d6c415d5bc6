-- ===== src/Netcode/Server/Frame/Sweep.antt =====
-- netcode/netcode.c: the loops of the server that disconnect the clients that pass a test.
use mathlib.Core.Bool.{true≢false}
use yojimbo_cmake.Common.{
  ℕ, zero, suc, ◌+◌, ◌<◌, ◌≤◌, ◌≡◌, refl, sym, subst, ap, ◌∙◌, Bool, true, false, not, ◌&&◌,
  Bool-cases, inl, inr, if◌then◌else◌, length, ℕ_discrete, arith,
}
use yojimbo_cmake.Common.Results.{Result, ok, ◌>>=◌, Returns, Returns-then, Returns-weaken}
use yojimbo_cmake.Netcode.Crypto.{Sodium}
use yojimbo_cmake.Netcode.Client.{Timer}
use yojimbo_cmake.Netcode.Server.{Server, slot}
use yojimbo_cmake.Netcode.Server.Slots.{disconnect_from, disconnect_client_internal}
use yojimbo_cmake.Netcode.Server.Update.{client_timed_out, check_from}
use yojimbo_cmake.Netcode.Server.Frame.{IsFrame, Vacates, disconnect_client_internal-Vacates}

module _ (T : Timer) where
  -- Of the `k` slots from `i` on, those that passed the test have no client any more, none passes it
  -- now, and a slot that did not pass it is as it was.
  pub record Swept (test : Server T → ℕ → Bool) (k i : ℕ) (s s' : Server T) : Type 0 where
    pub time : s'.time ≡ s.time
    pub size : length s'.slots ≡ length s.slots
    pub max_clients : s'.max_clients ≡ s.max_clients
    pub quiet : (j : ℕ) → i ≤ j → j < i + k → test s' j ≡ false
    pub gone : (j : ℕ) → i ≤ j → j < i + k → test s j ≡ true → (slot T s' j).connected ≡ false
    pub kept : (j : ℕ) → test s j ≡ false → slot T s' j ≡ slot T s j

  -- One round, at slot `i`.
  record Step (test : Server T → ℕ → Bool) (i : ℕ) (s s' : Server T) : Type 0 where
    frame : IsFrame T i s s'
    after : test s' i ≡ false
    gone : test s i ≡ true → (slot T s' i).connected ≡ false
    kept : test s i ≡ false → slot T s' i ≡ slot T s i

  module _ (S : Sodium) (b : Bool) (test : Server T → ℕ → Bool)
      (loop : ℕ → Server T → ℕ → Result (Server T))
      (at_end : (s : Server T) (i : ℕ) → loop zero s i ≡ ok s)
      (round : (k : ℕ) (s : Server T) (i : ℕ)
        → loop (suc k) s i ≡ (
            (if test s i then disconnect_client_internal T S s i b else ok s) >>= λ s'.
            loop k s' (i + 1)))
      (local : (s s' : Server T) (j : ℕ)
        → slot T s' j ≡ slot T s j
        → s'.time ≡ s.time
        → test s' j ≡ test s j)
      (passed : (s : Server T) (j : ℕ) → (slot T s j).connected ≡ false → test s j ≡ false) where
    step :
        (s : Server T) (i : ℕ)
        → i < length s.slots
        → Returns (Step test i s) (if test s i then disconnect_client_internal T S s i b else ok s)
    step s i h = elim (Bool-cases (test s i)) [
      | inl t ↦
          rw (t, Returns)
            (Returns-weaken (Vacates T i s) (Step test i s) (disconnect_client_internal T S s i b)
              (disconnect_client_internal-Vacates T S s i b h)
              λ s' v. record {
                frame = v.frame;
                after = passed s' i v.gone;
                gone = λ t. v.gone;
                kept = λ f. absurd (true≢false (sym t ∙ f));
              })
      | inr f ↦
          rw (f, Returns)
            (record {
              frame = record {
                time = refl;
                size = refl;
                max_clients = refl;
                others = λ j ne. refl;
              };
              after = f;
              gone = λ t. absurd (true≢false (sym t ∙ f));
              kept = λ f. refl;
            })
    ]

    after-Step :
        (k i : ℕ) (s s1 s2 : Server T)
        → Step test i s s1
        → Swept test k (i + 1) s1 s2
        → Swept test (suc k) i s s2
    after-Step k i s s1 s2 v w = record {
      time = w.time ∙ v.frame.time;
      size = w.size ∙ v.frame.size;
      max_clients = w.max_clients ∙ v.frame.max_clients;
      quiet = λ j lo hi. elim (ℕ_discrete i j) [
        | yes e ↦
            subst (λ j. test s2 j ≡ false) e (local s1 s2 i (w.kept i v.after) w.time ∙ v.after)
        | no ne ↦ w.quiet j (omega arith) (omega arith)
      ];
      gone = λ j lo hi t. elim (ℕ_discrete i j) [
        | yes e ↦
            subst (λ j. test s j ≡ true → (slot T s2 j).connected ≡ false) e
              (λ t. ap (λ c. c.connected) (w.kept i v.after) ∙ v.gone t) t
        | no ne ↦
            w.gone j (omega arith) (omega arith)
              (local s s1 j (v.frame.others j ne) v.frame.time ∙ t)
      ];
      kept = λ j f. elim (ℕ_discrete i j) [
        | yes e ↦
            w.kept j (subst (λ j. test s1 j ≡ false) e v.after)
            ∙ subst (λ j. test s j ≡ false → slot T s1 j ≡ slot T s j) e v.kept f
        | no ne ↦
            w.kept j (local s s1 j (v.frame.others j ne) v.frame.time ∙ f) ∙ v.frame.others j ne
      ];
    }

    pub sweep :
        (k : ℕ) (s : Server T) (i : ℕ)
        → i + k ≤ length s.slots
        → Returns (Swept test k i s) (loop k s i)
    sweep zero s i h =
        rw (at_end s i, Returns)
          (record {
            time = refl;
            size = refl;
            max_clients = refl;
            quiet = λ j lo hi. absurd (omega arith);
            gone = λ j lo hi. absurd (omega arith);
            kept = λ j f. refl;
          })
    sweep (suc k) s i h = rw (round k s i) (
        Returns-then (Step test i s) (Swept test (suc k) i s) _ _ (step s i (omega arith)) λ s1 v.
          Returns-weaken (Swept test k (i + 1) s1) (Swept test (suc k) i s) (loop k s1 (i + 1))
            (sweep k s1 (i + 1) (omega (arith, v.frame.size))) (λ s2 w. after-Step k i s s1 s2 v w))

  module _ (S : Sodium) where
    pub check_from-Swept :
        (k : ℕ) (s : Server T) (i : ℕ)
        → i + k ≤ length s.slots
        → Returns (Swept (client_timed_out T S) k i s) (check_from T S k s i)
    unfolding check_from
    check_from-Swept k s i h =
        sweep S false (client_timed_out T S) (check_from T S) (λ s i. refl) (λ k s i. refl)
          (λ s s' j e t. rw (e, t) refl) (λ s j f. rw f refl) k s i h

    -- Those that `netcode_server_disconnect_all_clients` disconnects.
    abbrev pub is_network_client : Server T → ℕ → Bool
    is_network_client s i = (slot T s i).connected && not (slot T s i).loopback

    pub disconnect_from-Swept :
        (k : ℕ) (s : Server T) (i : ℕ)
        → i + k ≤ length s.slots
        → Returns (Swept is_network_client k i s) (disconnect_from T S k s i)
    unfolding disconnect_from
    disconnect_from-Swept k s i h =
        sweep S true is_network_client (disconnect_from T S) (λ s i. refl) (λ k s i. refl)
          (λ s s' j e t. rw e refl) (λ s j f. rw f refl) k s i h
