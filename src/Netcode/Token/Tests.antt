-- ===== src/Netcode/Token/Tests.antt =====
-- Runs of the tokens of netcode/netcode.c.
use yojimbo_cmake.Common.{ℕ, ◌≡◌, refl, List, [], ◌∷◌, length, replicate, arith}
use yojimbo_cmake.Common.Results.{ok}
use yojimbo_cmake.Netcode.Address.{Address, ipv4, ipv6}
use yojimbo_cmake.Netcode.Crypto.Plain.{plain, plain-IsAead}
use yojimbo_cmake.Netcode.Token.{version_info, connect_token_bytes, connect_token_private_bytes}
use yojimbo_cmake.Netcode.Token.Private
use yojimbo_cmake.Netcode.Token.Private.{PrivateToken}
use yojimbo_cmake.Netcode.Token.Challenge.{ChallengeToken}
use yojimbo_cmake.Netcode.Token.Connect
use yojimbo_cmake.Netcode.Token.Connect.{ConnectToken}
use yojimbo_cmake.Netcode.Token.Servers.{IsSendableTo}
use yojimbo_cmake.Netcode.Token.PrivateRoundTrip.{PrivateIsValid, private_lem}
use yojimbo_cmake.Netcode.Token.ConnectRoundTrip.{ConnectIsValid, connect_lem}

abbrev servers : List Address
servers = ipv4 (127 ∷ 0 ∷ 0 ∷ 1 ∷ []) 40000 ∷ ipv6 (0 ∷ 0 ∷ 0 ∷ 0 ∷ 0 ∷ 0 ∷ 0 ∷ 1 ∷ []) 40001 ∷ []

abbrev pub key : List ℕ
key = replicate 32 7

servers_sendable : IsSendableTo servers key key
servers_sendable = record {
  some_server = omega arith;
  few_servers = omega arith;
  sendable = (refl, (refl, tt));
  key_size = refl;
  key'_size = refl;
}

abbrev pub token : PrivateToken
token = record {
  client_id = 1000;
  timeout_seconds = 5;
  server_addresses = servers;
  client_to_server_key = key;
  server_to_client_key = key;
  user_data = replicate 256 9;
}

pub token-IsValid : PrivateIsValid token
token-IsValid = record { servers = servers_sendable; user_size = refl }

abbrev pub nonce : List ℕ
nonce = replicate 24 3

private_lem_example :
    (buffer : List ℕ) × (sealed : List ℕ) × (opened : List ℕ) × (Private.write token ≡ ok buffer)
    × (length buffer ≡ connect_token_private_bytes)
    × (Private.encrypt plain buffer version_info 77 2000 nonce key ≡ ok sealed)
    × (length sealed ≡ connect_token_private_bytes)
    × (Private.decrypt plain sealed version_info 77 2000 nonce key ≡ ok opened)
    × (Private.read opened connect_token_private_bytes ≡ ok token)
private_lem_example =
    private_lem token plain version_info nonce key 77 2000 plain-IsAead token-IsValid refl

abbrev challenge_token : ChallengeToken
challenge_token = record { client_id = 1000; user_data = replicate 256 9 }

abbrev connect_token : ConnectToken
connect_token = record {
  version = version_info;
  protocol_id = 77;
  create_timestamp = 1000;
  expire_timestamp = 2000;
  nonce = nonce;
  private_data = replicate 1024 1;
  timeout_seconds = 5;
  server_addresses = servers;
  client_to_server_key = key;
  server_to_client_key = key;
}

connect_token-IsValid : ConnectIsValid connect_token
connect_token-IsValid = record {
  servers = servers_sendable;
  same = refl;
  nonce_size = refl;
  private_size = refl;
  in_time = omega arith;
}

connect_lem_example :
    (buffer : List ℕ) × (Connect.write connect_token ≡ ok buffer)
    × (length buffer ≡ connect_token_bytes)
    × (Connect.read buffer (length buffer) ≡ ok connect_token)
connect_lem_example = connect_lem connect_token connect_token-IsValid
