-- ===== src/Netcode/Token/Servers.antt =====
-- What the round trips of tokens share: the servers of a token that can be sent, and the zeros with
-- which a token is padded.
use yojimbo_cmake.Common.{
  ℕ, ◌+◌, ◌-◌, ◌<◌, ◌≤◌, ◌≡◌, refl, ◌∙◌, ap, false, List, [], ◌∷◌, ◌++◌, ltb, le→ltb, ◌==◌, ==_ne,
  length, take, zero, suc, length-append, length-replicate, replicate, All, arith,
}
use yojimbo_cmake.Common.Results.{ok}
use yojimbo_cmake.Common.Memory.{region, region_lem}
use yojimbo_cmake.Netcode.Address.{Address}
use yojimbo_cmake.Netcode.Address.Wire.{IsSendable}
use yojimbo_cmake.Netcode.Token.{key_bytes, max_servers_per_connect, padded}

-- The server addresses and the keys of a token that can be sent.
pub record IsSendableTo (servers : List Address) (key key' : List ℕ) : Type 0 where
  pub some_server : 0 < length servers
  pub few_servers : length servers ≤ 32
  pub sendable : All IsSendable servers
  pub key_size : length key ≡ key_bytes
  pub key'_size : length key' ≡ key_bytes

pub padded_lem :
    (n : ℕ) (l : List ℕ) → length l ≤ n → padded n l ≡ ok (l ++ replicate (n - length l) 0)
unfolding padded
padded_lem n l h = rw (le→ltb n (length l) h) refl

-- The zeros behind a message, as far as they are encrypted with it.
pub take-padding :
    (n k : ℕ) (l : List ℕ)
    → length l ≤ n
    → n ≤ length l + k
    → take n (l ++ replicate k 0) ≡ l ++ replicate (n - length l) 0
take-padding zero k [] h i = refl
take-padding (suc n) zero [] h i = absurd (omega arith)
take-padding (suc n) (suc k) [] h i =
    ap (λ r. 0 ∷ r) (take-padding n k [] (omega arith) (omega arith))
    ∙ ap (λ j. replicate j 0) one_more
  where
    one_more : suc (n - 0) ≡ suc n - 0
    one_more = omega arith
take-padding zero k (x ∷ l) h i = absurd (omega arith)
take-padding (suc n) k (x ∷ l) h i =
    ap (λ r. x ∷ r)
      (take-padding n k l (omega arith) (omega arith) ∙ ap (λ j. l ++ replicate j 0) one_more)
  where
    one_more : n - length l ≡ suc n - suc (length l)
    one_more = omega arith

pub take-all : (n : ℕ) (l : List ℕ) → length l ≤ n → take n l ≡ l
take-all zero [] h = refl
take-all zero (x ∷ l) h = absurd (omega arith)
take-all (suc n) [] h = refl
take-all (suc n) (x ∷ l) h = ap (λ r. x ∷ r) (take-all n l (omega arith))

pub length-padding :
    (n : ℕ) (l : List ℕ) → length l ≤ n → length (l ++ replicate (n - length l) 0) ≡ n
length-padding n l h =
    omega (
      arith,
      length-append l (replicate (n - length l) 0),
      length-replicate {A = ℕ} (n - length l) 0,
    )

-- The tests that a reader makes of the number of servers.
module _ {servers : List Address} {key key' : List ℕ} (v : IsSendableTo servers key key') where
  pub some_servers : (length servers == 0) ≡ false
  some_servers = (==_ne (length servers) 0).1 (omega (arith, v.some_server))

  pub few_enough : ltb max_servers_per_connect (length servers) ≡ false
  few_enough = le→ltb max_servers_per_connect (length servers) v.few_servers

-- What is encrypted of a padded message.
pub region-padding :
    (n k : ℕ) (l : List ℕ)
    → length l ≤ n
    → n ≤ length l + k
    → region (l ++ replicate k 0) n ≡ ok (l ++ replicate (n - length l) 0)
region-padding n k l h i =
    region_lem (l ++ replicate k 0) n
      (omega (arith, length-append l (replicate k 0), length-replicate {A = ℕ} k 0))
    ∙ ap ok (take-padding n k l h i)

pub region-all : (n : ℕ) (l : List ℕ) → length l ≡ n → region l n ≡ ok l
region-all n l h = region_lem l n (omega arith) ∙ ap ok (take-all n l (omega arith))
