-- ===== src/Netcode/Server/Sound/Requests.antt =====
-- netcode/netcode.c: connection requests and responses, on a server that is sound.
use yojimbo_cmake.Common.{
  ℕ, ◌≡◌, Bool, true, false, not, inl, inr, Bool-cases, Option, none, some, Option-cases, List,
  length, length-drop, drop, take, ◌==◌, arith,
}
use yojimbo_cmake.Common.Results.{
  Result, ok, invalid, fault, Safe, Safe-bind, Yields, Yields-when, Yields-weaken,
}
use yojimbo_cmake.Common.Memory.{region_lem}
use yojimbo_cmake.Netcode.Address.{Address}
use yojimbo_cmake.Netcode.EncryptionManager.{EncryptionManager}
use yojimbo_cmake.Netcode.ConnectTokenEntries.{ConnectTokenEntry}
use yojimbo_cmake.Netcode.ConnectTokenEntries.Reuse.{find_or_add-in_array}
use yojimbo_cmake.Netcode.Crypto.{Sodium, IsAead}
use yojimbo_cmake.Netcode.Token.Private.{PrivateToken}
use yojimbo_cmake.Netcode.Token.Challenge
use yojimbo_cmake.Netcode.Token.Challenge.{ChallengeToken}
use yojimbo_cmake.Netcode.Token.ChallengeRoundTrip.{challenge_lem}
use yojimbo_cmake.Netcode.Token.Safety.{
  PrivateIsSized, ChallengeIsSized, challenge_decrypt-Safe, challenge_read-Safe,
}
use yojimbo_cmake.Netcode.Packet.{denied, challenge}
use yojimbo_cmake.Netcode.Client.{Timer}
use yojimbo_cmake.Netcode.Server.{Server}
use yojimbo_cmake.Netcode.Server.Slots.{find_client_index_by_id, find_client_index_by_address}
use yojimbo_cmake.Netcode.Server.Connecting.{
  found_server_address, send_challenge, challenge_client, accept_token, process_token,
  process_connection_request_packet, connect_free, process_challenge, process_response,
  read_challenge, process_connection_response_packet,
}
use yojimbo_cmake.Netcode.Server.Sound.{IsSound}
use yojimbo_cmake.Netcode.Server.Sound.Sending.{HasClient, send_global_packet-Yields}
use yojimbo_cmake.Netcode.Server.Sound.Joining.{missed-IsNew, find_free_lem, connect_client-Yields}

module _ (T : Timer) (n : ℕ) (S : Sodium) (sound : IsAead S.encrypt S.decrypt)
    (sound' : IsAead S.encrypt_bignonce S.decrypt_bignonce) where
  challenge_client-Yields :
      (s : Server T) (from : Address) (t : PrivateToken) (r : Bool × EncryptionManager T.clock)
      → IsSound T n s
      → PrivateIsSized t
      → Yields (IsSound T n) (challenge_client T S s from t r)
  unfolding challenge_client send_challenge
  challenge_client-Yields s from t (false, m) v h = record {
    slots = v.slots;
    open_slots = v.open_slots;
  }
  challenge_client-Yields s from t (true, m) v h =
      let (buffer, sealed, opened, written, encrypted, size, decrypted, back) =
        challenge_lem (record { client_id = t.client_id; user_data = t.user_data }) h.user_size S
          s.challenge_sequence s.challenge_key sound in
      rw (written, encrypted)
        (send_global_packet-Yields T n S sound sound' _ (challenge s.challenge_sequence sealed) from
          t.server_to_client_key (record { slots = v.slots; open_slots = v.open_slots }) size)

  accept_token-Yields :
      (s : Server T) (from : Address) (t : PrivateToken)
      (r : Bool × List (ConnectTokenEntry T.clock))
      → IsSound T n s
      → PrivateIsSized t
      → Yields (IsSound T n) (accept_token T S s from t r)
  unfolding accept_token
  accept_token-Yields s from t (false, entries) v h = record {
    slots = v.slots;
    open_slots = v.open_slots;
  }
  accept_token-Yields s from t (true, entries) v h =
      Yields-when (IsSound T n) (s.num_connected_clients == s.max_clients) _ _
        (λ full.
          send_global_packet-Yields T n S sound sound'
            (record s { connect_token_entries = entries }) denied from t.server_to_client_key
            (record { slots = v.slots; open_slots = v.open_slots }) tt)
        (challenge_client-Yields _ from t _ (record { slots = v.slots; open_slots = v.open_slots })
          h)

  process_token-Yields :
      (s : Server T) (from : Address) (token_data : List ℕ) (t : PrivateToken)
      → IsSound T n s
      → length token_data ≡ 1024
      → PrivateIsSized t
      → Yields (IsSound T n) (process_token T S s from token_data t)
  unfolding process_token
  process_token-Yields s from token_data t v size h =
      Yields-when (IsSound T n) (not (found_server_address s.address t.server_addresses)) _ _
        (λ missing. v)
        (elim (Option-cases (find_client_index_by_address T s from)) [
          | inr (i, e) ↦ rw (e, Yields) v
          | inl e ↦ elim (Option-cases (find_client_index_by_id T s t.client_id)) [
            | inr (i, f) ↦ rw (e, f, Yields) v
            | inl f ↦
                let (r, found, kept) =
                  find_or_add-in_array T.clock s.connect_token_entries from
                    (take 16 (drop 1008 token_data)) s.time in
                rw
                  (
                    e,
                    f,
                    region_lem (drop 1008 token_data) 16
                        (omega (arith, length-drop 1008 token_data, size)),
                    found,
                    Yields,
                  )
                  (accept_token-Yields s from t r v h)
          ]
        ])

  -- A connection request whose private token was read or not.
  pub request-Yields :
      (s : Server T) (from : Address) (token_data : List ℕ) (r : Result PrivateToken)
      → IsSound T n s
      → length token_data ≡ 1024
      → Safe PrivateIsSized r
      → Yields (IsSound T n) (process_connection_request_packet T S s from token_data r)
  unfolding process_connection_request_packet
  request-Yields s from token_data fault v size h = h
  request-Yields s from token_data invalid v size h = v
  request-Yields s from token_data (ok t) v size h =
      process_token-Yields s from token_data t v size h

  process_challenge-Yields :
      (s : Server T) (from : Address) (t : ChallengeToken) (e : Option ℕ)
      → IsSound T n s
      → Yields (IsSound T n) (process_challenge T S s from t e)
  unfolding process_challenge connect_free
  process_challenge-Yields s from t none v = v
  process_challenge-Yields s from t (some e) v =
      elim (Option-cases (find_client_index_by_address T s from)) [
        | inr (i, f) ↦ rw (f, Yields) v
        | inl f ↦ elim (Option-cases (find_client_index_by_id T s t.client_id)) [
          | inr (i, g) ↦ rw (f, g, Yields) v
          | inl g ↦ elim (Bool-cases (s.num_connected_clients == s.max_clients)) [
            | inl full ↦
                rw (f, g, full, Yields)
                  (send_global_packet-Yields T n S sound sound' s denied from _ v tt)
            | inr room ↦
                let (i, found, below, free) = find_free_lem T n s v room in
                rw (f, g, room, found, Yields)
                  (Yields-weaken (HasClient T n i) (IsSound T n) _
                    (connect_client-Yields T n S sound sound' s i from t.client_id e _ t.user_data v
                      below free (missed-IsNew T n s t.client_id from v g f))
                    (λ s' v'. v'.sound))
          ]
        ]
      ]

  read_challenge-Safe :
      (s : Server T) (sequence : ℕ) (token_data : List ℕ)
      → length token_data ≡ 300
      → Safe ChallengeIsSized (read_challenge T S s sequence token_data)
  unfolding read_challenge
  read_challenge-Safe s sequence token_data size =
      Safe-bind (λ l. length l ≡ 300) ChallengeIsSized
        (Challenge.decrypt S token_data sequence s.challenge_key) _
        (challenge_decrypt-Safe S sound token_data sequence s.challenge_key size)
        (λ opened l. challenge_read-Safe opened l)

  process_response-Yields :
      (s : Server T) (from : Address) (r : Result ChallengeToken) (e : Option ℕ)
      → IsSound T n s
      → Safe ChallengeIsSized r
      → Yields (IsSound T n) (process_response T S s from r e)
  unfolding process_response
  process_response-Yields s from fault e v h = h
  process_response-Yields s from invalid e v h = v
  process_response-Yields s from (ok t) e v h = process_challenge-Yields s from t e v

  -- A connection response with the bytes of a challenge token.
  pub response-Yields :
      (s : Server T) (from : Address) (sequence : ℕ) (token_data : List ℕ) (e : Option ℕ)
      → IsSound T n s
      → length token_data ≡ 300
      → Yields (IsSound T n) (process_connection_response_packet T S s from sequence token_data e)
  unfolding process_connection_response_packet
  response-Yields s from sequence token_data e v size =
      process_response-Yields s from (read_challenge T S s sequence token_data) e v
        (read_challenge-Safe s sequence token_data size)
