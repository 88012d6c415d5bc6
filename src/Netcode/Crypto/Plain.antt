-- ===== src/Netcode/Crypto/Plain.antt =====
-- An encryption that only puts sixteen bytes in front of the message, for runs of the model.
use yojimbo_cmake.Common.{
  ℕ, ◌+◌, ◌≡◌, inl, inr, refl, Bool-cases, Option, none, some, List, ◌++◌, ltb, ltb→le, le→ltb,
  if◌then◌else◌, length, drop, length-drop, replicate, arith,
}
use yojimbo_cmake.Netcode.Crypto.{Sodium, IsAead}

abbrev pub seal : List ℕ → List ℕ → List ℕ → List ℕ → Option (List ℕ)
seal m additional nonce key = some (replicate 16 0 ++ m)

abbrev pub unseal : List ℕ → List ℕ → List ℕ → List ℕ → Option (List ℕ)
unseal c additional nonce key = if ltb (length c) 16 then none else some (drop 16 c)

abbrev pub plain : Sodium
plain = record {
  encrypt = seal;
  decrypt = unseal;
  encrypt_bignonce = seal;
  decrypt_bignonce = unseal;
}

same_value : (a b : List ℕ) → some a ≡ some b → a ≡ b
same_value a b e = cc

unseal-seal :
    (m additional nonce key c : List ℕ)
    → seal m additional nonce key ≡ some c
    → unseal c additional nonce key ≡ some m
unseal-seal m additional nonce key c e =
    rw (← same_value (replicate 16 0 ++ m) c e)
      (rw (le→ltb (length (replicate 16 0 ++ m)) 16 (omega arith)) refl)

shorter_by_mac :
    (c additional nonce key m : List ℕ)
    → unseal c additional nonce key ≡ some m
    → length c ≡ length m + 16
shorter_by_mac c additional nonce key m e = elim (Bool-cases (ltb (length c) 16)) [
  | inl t ↦ clash (rw t at e)
  | inr t ↦
      rw (← same_value (drop 16 c) m (rw t at e))
        (omega (arith, ltb→le (length c) 16 t, length-drop 16 c))
]
  where
    clash : none ≡ some m → length c ≡ length m + 16
    clash h = cc

pub plain-IsAead : IsAead seal unseal
plain-IsAead = record {
  encrypts = λ m additional nonce key. (replicate 16 0 ++ m, refl, omega arith);
  decrypts = unseal-seal;
  shorter = shorter_by_mac;
}
