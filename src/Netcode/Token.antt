-- ===== src/Netcode/Token.antt =====
-- netcode/netcode.c: what connect tokens, challenge tokens and packets share.
pub mod Private
pub mod Safety
pub mod Challenge
pub mod Connect
pub mod Servers
pub mod PrivateRoundTrip
pub mod ChallengeRoundTrip
pub mod ConnectRoundTrip
pub mod Tests
use yojimbo_cmake.Common.{
  ℕ, ◌+◌, ◌-◌, Bool, List, [], ◌∷◌, ◌++◌, ltb, if◌then◌else◌, length, replicate,
}
use yojimbo_cmake.Common.Results.{Result, ok, fault}
use yojimbo_cmake.Netcode.Address.{same_parts}

-- NETCODE_VERSION_INFO with the zero byte at its end, "NETCODE 1.02"
abbrev pub version_info : List ℕ
version_info = 78 ∷ 69 ∷ 84 ∷ 67 ∷ 79 ∷ 68 ∷ 69 ∷ 32 ∷ 49 ∷ 46 ∷ 48 ∷ 50 ∷ 0 ∷ []

abbrev pub version_info_bytes : ℕ
version_info_bytes = 13

-- The comparison of the thirteen bytes.
abbrev pub same_version : List ℕ → Bool
same_version v = same_parts version_info_bytes v version_info 0

abbrev pub max_servers_per_connect : ℕ
max_servers_per_connect = 32

abbrev pub key_bytes : ℕ
key_bytes = 32

abbrev pub user_data_bytes : ℕ
user_data_bytes = 256

abbrev pub connect_token_nonce_bytes : ℕ
connect_token_nonce_bytes = 24

abbrev pub connect_token_private_bytes : ℕ
connect_token_private_bytes = 1024

abbrev pub challenge_token_bytes : ℕ
challenge_token_bytes = 300

abbrev pub connect_token_bytes : ℕ
connect_token_bytes = 2048

-- memset( buffer, 0, n - ( buffer - start ) ), behind the bytes written; a negative size is past
-- the end of every buffer.
unfoldable pub padded : ℕ → List ℕ → Result (List ℕ)
padded n written =
    if ltb n (length written) then fault else ok (written ++ replicate (n - length written) 0)
