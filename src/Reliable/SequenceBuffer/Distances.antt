-- ===== src/Reliable/SequenceBuffer/Distances.antt =====
-- Which slots the sequence numbers of a window have: the arithmetic behind a sequence buffer.
use yojimbo_cmake.Common.{
  ℕ, ◌+◌, ◌-◌, ◌*◌, ◌%◌, ◌≤◌, ◌<◌, ◌≡◌, sym, ◌∙◌, ap, ◌≢◌, ◌⊎◌, inl, inr, true, arith, dec_lt,
}
use native.Mathlib.Nat.{mod-lt, mod-eq_of_lt, mod-eq-sub-mod, mod-add-mod}
use yojimbo_cmake.Reliable.Sequence.{add16, sub16, distance, sequence_greater_than}
use yojimbo_cmake.Reliable.SequenceBuffer.Window.{mod_turn}

-- Fewer than `n` steps on, the slot is another.
add-mod-ne : (n h k : ℕ) → h < n → 0 < k → k < n → (h + k) % n ≢ h
add-mod-ne n h k hh k0 hk = elim (dec_lt (h + k) n) [
  | yes p ↦ omega (arith, mod-eq_of_lt p)
  | no p ↦ omega (
    arith,
    mod-eq-sub-mod {n = h + k} {m = n} (omega arith),
    mod-eq_of_lt {n = h + k - n} {m = n} (omega arith),
  )
]

steps_apart : (n x k : ℕ) → 0 < k → k < n → (x + k) % n ≢ x % n
steps_apart n x k k0 hk e =
    add-mod-ne n (x % n) k (mod-lt x (omega arith)) k0 hk (mod-add-mod x n k ∙ e)

-- Of two numbers in the window with one slot, the first is not the older one.
not_older :
    (s n turns x y : ℕ)
    → s < 65536
    → n ≤ 32768
    → turns * n ≡ 65536
    → x < 65536
    → y < 65536
    → distance x s < distance y s
    → distance y s < n
    → x % n ≢ y % n
not_older s n turns x y hs small hd hx hy lt near e = elim around [
  | inl p ↦ steps_apart n y k k0 kn (ap (λ t. t % n) p ∙ e)
  | inr p ↦ steps_apart n y k k0 kn (sym (mod_turn x (y + k) n turns hd (sym p)) ∙ e)
]
  where
    k : ℕ
    k = distance y s - distance x s

    k0 : 0 < k
    k0 = omega arith

    kn : k < n
    kn = omega arith

    around : (y + k ≡ x) ⊎ (y + k ≡ x + 65536)
    around = omega arith

-- The slot decides which number of the window it is.
pub same_slot :
    (s n turns x y : ℕ)
    → s < 65536
    → n ≤ 32768
    → turns * n ≡ 65536
    → x < 65536
    → y < 65536
    → distance x s < n
    → distance y s < n
    → x % n ≡ y % n
    → x ≡ y
same_slot s n turns x y hs small hd hx hy nx ny e = elim (dec_lt (distance x s) (distance y s)) [
  | yes p ↦ absurd (not_older s n turns x y hs small hd hx hy p ny e)
  | no p ↦ elim (dec_lt (distance y s) (distance x s)) [
    | yes q ↦ absurd (not_older s n turns y x hs small hd hy hx q nx (sym e))
    | no q ↦ omega arith
  ]
]

-- A number no older than the window lies behind `q` by its old distance and what `q` passes over.
pub distance_adds :
    (s q t : ℕ)
    → s < 65536
    → q < 65536
    → t < 65536
    → sequence_greater_than (add16 q 1) s ≡ true
    → distance t (sub16 s 1) < 32768
    → (distance t q ≡ distance t (sub16 s 1) + 1 + distance s q) × (distance s q ≤ 32767)
unfolding sequence_greater_than
distance_adds s q t hs hq ht g near = ground arith

-- A number that `q` passes over has the slot of no number in both windows.
pub fresh_slot :
    (s q t n turns j : ℕ)
    → s < 65536
    → q < 65536
    → t < 65536
    → n ≤ 32768
    → turns * n ≡ 65536
    → distance s q ≤ 32767
    → distance s q < n
    → distance t (sub16 s 1) < n
    → distance t q < n
    → j ≤ distance s q
    → (s + j) % n ≢ t % n
fresh_slot s q t n turns j hs hq ht small hd far short old new le e = omega (arith, meets)
  where
    wraps : (add16 s j ≡ s + j) ⊎ (add16 s j + 65536 ≡ s + j)
    wraps = omega arith

    place : add16 s j % n ≡ (s + j) % n
    place = elim wraps [
      | inl p ↦ ap (λ x. x % n) p
      | inr p ↦ mod_turn (add16 s j) (s + j) n turns hd p
    ]

    meets : add16 s j ≡ t
    meets =
        same_slot q n turns (add16 s j) t hq small hd (omega arith) ht (omega arith) new (place ∙ e)
