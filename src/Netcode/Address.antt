-- ===== src/Netcode/Address.antt =====
-- netcode/netcode.h: `struct netcode_address_t`; netcode/netcode.c: `netcode_address_equal`.
pub mod Wire
use mathlib.Core.Bool.{true≢false}
use yojimbo_cmake.Common.{
  ℕ, zero, suc, ◌+◌, ◌≡◌, refl, sym, ap, Bool, true, false, Bool-cases, inl, inr, List, ◌==◌,
  ==_iff, if◌then◌else◌, get_or,
}

-- The union by its type: four bytes or eight 16 bit numbers, and the port. An address that is all
-- 0 has the type NONE, of which no more is looked at.
pub data Address : Type 0 where
  type_none : Address
  ipv4 : List ℕ → ℕ → Address
  ipv6 : List ℕ → ℕ → Address

-- The loop over the parts, `rounds` of which are left from place `i` on.
unfoldable pub same_parts : ℕ → List ℕ → List ℕ → ℕ → Bool
same_parts zero a b i = true
same_parts (suc rounds) a b i =
    let rest = same_parts rounds a b (i + 1) in if get_or a i 0 == get_or b i 0 then rest else false

pub address_equal : Address → Address → Bool
address_equal (ipv4 a p) (ipv4 b q) = if p == q then same_parts 4 a b 0 else false
address_equal (ipv6 a p) (ipv6 b q) = if p == q then same_parts 8 a b 0 else false
address_equal _ _ = false

pub same_parts_refl : (n : ℕ) (a : List ℕ) (i : ℕ) → same_parts n a a i ≡ true
unfolding same_parts
same_parts_refl zero a i = refl
same_parts_refl (suc n) a i =
    rw ((==_iff (get_or a i 0) (get_or a i 0)).1 refl) (same_parts_refl n a (i + 1))

abbrev pub is_none : Address → Bool
is_none type_none = true
is_none (ipv4 a p) = false
is_none (ipv6 a p) = false

-- Every address but that of type NONE equals itself.
pub address_equal_refl : (a : Address) → is_none a ≡ false → address_equal a a ≡ true
unfolding address_equal
address_equal_refl type_none h = absurd (true≢false h)
address_equal_refl (ipv4 a p) h = rw ((==_iff p p).1 refl) (same_parts_refl 4 a 0)
address_equal_refl (ipv6 a p) h = rw ((==_iff p p).1 refl) (same_parts_refl 8 a 0)

-- An address of type NONE equals none.
pub address_equal_none : (a b : Address) → is_none a ≡ true → address_equal a b ≡ false
unfolding address_equal
address_equal_none type_none b h = refl
address_equal_none (ipv4 a p) b h = absurd (true≢false (sym h))
address_equal_none (ipv6 a p) b h = absurd (true≢false (sym h))

same_parts_common :
    (n : ℕ) (a b c : List ℕ) (i : ℕ)
    → same_parts n a b i ≡ true
    → same_parts n a c i ≡ same_parts n b c i
unfolding same_parts
same_parts_common zero a b c i h = refl
same_parts_common (suc n) a b c i h = elim (Bool-cases (get_or a i 0 == get_or b i 0)) [
  | inr f ↦ absurd (true≢false (sym (rw f at h)))
  | inl t ↦ rw ((==_iff (get_or a i 0) (get_or b i 0)).0 t) (
      ap (λ r. if get_or b i 0 == get_or c i 0 then r else false)
        (same_parts_common n a b c (i + 1) (rw t at h)))
]

parts_common :
    (n : ℕ) (a b c : List ℕ) (p q r : ℕ)
    → (if p == q then same_parts n a b 0 else false) ≡ true
    → (if p == r then same_parts n a c 0 else false)
      ≡ (if q == r then same_parts n b c 0 else false)
parts_common n a b c p q r h = elim (Bool-cases (p == q)) [
  | inr f ↦ absurd (true≢false (sym (rw f at h)))
  | inl t ↦
      rw ((==_iff p q).0 t)
        (ap (λ same. if q == r then same else false) (same_parts_common n a b c 0 (rw t at h)))
]

-- Addresses that are equal are equal to the same ones.
pub address_equal_common :
    (a b c : Address) → address_equal a b ≡ true → address_equal a c ≡ address_equal b c
unfolding address_equal
address_equal_common (ipv4 a p) (ipv4 b q) (ipv4 c r) h = parts_common 4 a b c p q r h
address_equal_common (ipv6 a p) (ipv6 b q) (ipv6 c r) h = parts_common 8 a b c p q r h
address_equal_common (ipv4 a p) (ipv4 b q) (ipv6 c r) h = refl
address_equal_common (ipv4 a p) (ipv4 b q) type_none h = refl
address_equal_common (ipv6 a p) (ipv6 b q) (ipv4 c r) h = refl
address_equal_common (ipv6 a p) (ipv6 b q) type_none h = refl
address_equal_common type_none b c h = absurd (true≢false (sym h))
address_equal_common (ipv4 a p) type_none c h = absurd (true≢false (sym h))
address_equal_common (ipv4 a p) (ipv6 b q) c h = absurd (true≢false (sym h))
address_equal_common (ipv6 a p) type_none c h = absurd (true≢false (sym h))
address_equal_common (ipv6 a p) (ipv4 b q) c h = absurd (true≢false (sym h))
