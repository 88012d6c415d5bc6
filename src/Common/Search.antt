-- ===== src/Common/Search.antt =====
-- A loop over indices that stops at the first one that passes a test.
use Prim.Native.Nat.{ℕ, zero, suc, ◌+◌, ◌≤◌, ◌<◌}
use mathlib.Core.Path.{◌≡◌, refl, sym, subst, ◌∙◌, ap}
use mathlib.Core.Logic.{◌⊎◌, inl, inr}
use mathlib.Core.Bool.{Bool, true, false, true≢false}
use mathlib.Core.Option.{Option, none, some}
use native.Mathlib.Omega.{arith}
use native.Mathlib.Decide.{dec_lt, ℕ_discrete}
use yojimbo_cmake.Common.Tests.{if◌then◌else◌, Bool-cases, none≢some}

-- `rounds` rounds are left, from index `i` on.
unfoldable pub first : (ℕ → Bool) → ℕ → ℕ → Option ℕ
first test zero i = none
first test (suc rounds) i = let rest = first test rounds (i + 1) in if test i then some i else rest

-- `k` is the first of the `n` indices from `i` on that passes.
pub record IsFirst (test : ℕ → Bool) (n i k : ℕ) : Type 0 where
  pub above : i ≤ k
  pub below : k < i + n
  pub passes : test k ≡ true
  pub before : (j : ℕ) → i ≤ j → j < k → test j ≡ false

-- An index from `i` on is `i`, or one from `i + 1` on.
from_next :
    (test : ℕ → Bool) (i j : ℕ)
    → test i ≡ false
    → i ≤ j
    → (i + 1 ≤ j → test j ≡ false)
    → test j ≡ false
from_next test i j f lo next = elim (ℕ_discrete i j) [
  | yes e ↦ subst (λ k. test k ≡ false) e f
  | no ne ↦ next (omega arith)
]

-- What the loop finds: the first index that passes, or none if none does.
pub first-cases :
    (test : ℕ → Bool) (n i : ℕ)
    → ((first test n i ≡ none) × ((j : ℕ) → i ≤ j → j < i + n → test j ≡ false))
      ⊎ ((k : ℕ) × (first test n i ≡ some k) × IsFirst test n i k)
unfolding first
first-cases test zero i = inl (refl, λ j lo hi. absurd (omega arith))
first-cases test (suc n) i = elim (Bool-cases (test i)) [
  | inl t ↦ inr (
    i,
    rw t refl,
    record {
      above = omega arith;
      below = omega arith;
      passes = t;
      before = λ j lo hi. absurd (omega arith);
    },
  )
  | inr f ↦ elim (first-cases test n (i + 1)) [
    | inl (e, none_pass) ↦
        inl (rw f e, λ j lo hi. from_next test i j f lo (λ above. none_pass j above (omega arith)))
    | inr (k, e, s) ↦ inr (
      k,
      rw f e,
      record {
        above = omega (arith, s.above);
        below = omega (arith, s.below);
        passes = s.passes;
        before = λ j lo hi. from_next test i j f lo (λ above. s.before j above hi);
      },
    )
  ]
]

pub first-eq : (test : ℕ → Bool) (n i k : ℕ) → IsFirst test n i k → first test n i ≡ some k
first-eq test n i k s = elim (first-cases test n i) [
  | inl (e, none_pass) ↦ absurd (clash k s.passes (none_pass k s.above s.below))
  | inr (k', e, s') ↦ elim (dec_lt k k') [
    | yes lt ↦ absurd (clash k s.passes (s'.before k s.above lt))
    | no ge ↦ elim (dec_lt k' k) [
      | yes lt ↦ absurd (clash k' s'.passes (s.before k' s'.above lt))
      | no le ↦ e ∙ ap some (omega arith)
    ]
  ]
]
  where
    clash : (j : ℕ) → test j ≡ true → test j ≡ false → ⊥
    clash j t f = true≢false (sym t ∙ f)

-- Either answer on its own.
pub first-none :
    (test : ℕ → Bool) (n i : ℕ)
    → first test n i ≡ none
    → (j : ℕ) → i ≤ j
    → j < i + n
    → test j ≡ false
first-none test n i e = elim (first-cases test n i) [
  | inl (e', none_pass) ↦ none_pass
  | inr (k, e', s) ↦ absurd (none≢some k (sym e ∙ e'))
]

pub first-some : (test : ℕ → Bool) (n i k : ℕ) → first test n i ≡ some k → IsFirst test n i k
first-some test n i k e = elim (first-cases test n i) [
  | inl (e', none_pass) ↦ absurd (none≢some k (sym e' ∙ e))
  | inr (k', e', s) ↦
      subst (IsFirst test n i) (ap (λ o. elim o [ none ↦ k' | some x ↦ x ]) (sym e' ∙ e)) s
]
