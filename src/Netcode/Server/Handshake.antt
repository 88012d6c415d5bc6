-- ===== src/Netcode/Server/Handshake.antt =====
-- netcode/netcode.c: a challenge token that comes back to the server.
use yojimbo_cmake.Common.{
  ℕ, ◌+◌, ◌%◌, ◌^◌, ◌<◌, ◌≡◌, ◌≢◌, refl, ap, ◌∙◌, Bool, true, false, none, some, Option-cases, inl,
  inr, List, ◌==◌, get_or, modify, length, get_or-modify_self, modify-keeps, arith,
}
use yojimbo_cmake.Common.Int.{ℤ}
use yojimbo_cmake.Common.Results.{
  ok, ◌>>=◌, Returns, Returns-bind, Returns-then, Yields, Yields-Returns,
}
use yojimbo_cmake.Netcode.Address.{Address}
use yojimbo_cmake.Netcode.EncryptionManager
use yojimbo_cmake.Netcode.EncryptionManager.{EncryptionManager}
use yojimbo_cmake.Netcode.Crypto.{Sodium, IsAead}
use yojimbo_cmake.Netcode.Token.Challenge
use yojimbo_cmake.Netcode.Token.Challenge.{ChallengeToken}
use yojimbo_cmake.Netcode.Token.ChallengeRoundTrip.{challenge_lem}
use yojimbo_cmake.Netcode.Packet.{Packet, keep_alive}
use yojimbo_cmake.Netcode.Packet.Write.{write_packet}
use yojimbo_cmake.Netcode.Client.{Timer}
use yojimbo_cmake.Netcode.Client.Connect.{packet_bytes}
use yojimbo_cmake.Netcode.Server.{Slot, Server, empty_slot, slot}
use yojimbo_cmake.Netcode.Server.Slots.{
  find_client_index_by_id, find_client_index_by_address, find_free_client_index, send_with_mapping,
  send_client_packet,
}
use yojimbo_cmake.Netcode.Server.Connecting.{
  connected_slot, connect_client, connect_free, process_challenge, process_response, read_challenge,
  process_connection_response_packet,
}
use yojimbo_cmake.Netcode.Server.Frame.{IsFrame, IsFrame-modify, IsFrame-refl}
use yojimbo_cmake.Netcode.Server.Sound.{IsSound}
use yojimbo_cmake.Netcode.Server.Sound.Joining.{find_free_lem}
use yojimbo_cmake.Netcode.Server.Sound.Requests.{response-Yields}

module _ (T : Timer) where
  -- The client with the token is in slot `i`, and the other slots are as they were.
  pub record HasJoined (i : ℕ) (from : Address) (e : ℕ) (t : ChallengeToken) (s s' : Server T)
      : Type 0 where
    pub connected : (slot T s' i).connected ≡ true
    pub client_id : (slot T s' i).client_id ≡ t.client_id
    pub user_data : (slot T s' i).user_data ≡ t.user_data
    pub address : (slot T s' i).address ≡ from
    pub encryption_index : (slot T s' i).encryption_index ≡ some e
    pub others : (j : ℕ) → i ≢ j → slot T s' j ≡ slot T s j
    pub num_clients : s'.num_connected_clients ≡ (s.num_connected_clients + 1) % 2 ^ 32

  -- What sending a packet to the client of slot `i` keeps.
  record HasSent (i : ℕ) (s s' : Server T) : Type 0 where
    frame : IsFrame T i s s'
    connected : (slot T s' i).connected ≡ (slot T s i).connected
    client_id : (slot T s' i).client_id ≡ (slot T s i).client_id
    user_data : (slot T s' i).user_data ≡ (slot T s i).user_data
    address : (slot T s' i).address ≡ (slot T s i).address
    encryption_index : (slot T s' i).encryption_index ≡ (slot T s i).encryption_index
    num_clients : s'.num_connected_clients ≡ s.num_connected_clients

  module _ (S : Sodium) where
    send_with_mapping-HasSent :
        (s : Server T) (packet : Packet) (i e : ℕ) (r : Bool × EncryptionManager T.clock)
        → Returns (HasSent i s) (send_with_mapping T S s packet i e r)
    unfolding send_with_mapping EncryptionManager.get_send_key
    send_with_mapping-HasSent s packet i e (false, m) = record {
      frame = IsFrame-refl T i s _ refl refl refl;
      connected = refl;
      client_id = refl;
      user_data = refl;
      address = refl;
      encryption_index = refl;
      num_clients = refl;
    }
    send_with_mapping-HasSent s packet i e (true, m) =
        Returns-bind (HasSent i s)
          (packet_bytes T (
            write_packet S packet (slot T s i).sequence
              (EncryptionManager.mapping T.clock m e).send_key s.protocol_id))
          _
          λ bytes. record {
            frame = IsFrame-modify T i s _ _ refl refl refl;
            connected = keeps (λ c. c.connected ≡ (slot T s i).connected) (λ c h. h) refl;
            client_id = keeps (λ c. c.client_id ≡ (slot T s i).client_id) (λ c h. h) refl;
            user_data = keeps (λ c. c.user_data ≡ (slot T s i).user_data) (λ c h. h) refl;
            address = keeps (λ c. c.address ≡ (slot T s i).address) (λ c h. h) refl;
            encryption_index =
                keeps (λ c. c.encryption_index ≡ (slot T s i).encryption_index) (λ c h. h) refl;
            num_clients = refl;
          }
      where
        sent_to : Slot T → Slot T
        sent_to c = record c {
          sequence = (c.sequence + 1) % 2 ^ 64;
          last_packet_send_time = s.time;
        }

        keeps :
            (P : Slot T → Type 0)
            → ((c : Slot T) → P c → P (sent_to c))
            → P (slot T s i)
            → P (get_or (modify s.slots i sent_to) i (empty_slot T))
        keeps P k h = modify-keeps P s.slots i i sent_to (empty_slot T) k h

    send_client_packet-HasSent :
        (s : Server T) (packet : Packet) (i : ℕ)
        → Returns (HasSent i s) (send_client_packet T S s packet i)
    unfolding send_client_packet
    send_client_packet-HasSent s packet i = elim (Option-cases (slot T s i).encryption_index) [
      | inl f ↦ rw (f, Returns) tt
      | inr (e, f) ↦ rw (f, Returns) (send_with_mapping-HasSent s packet i e _)
    ]

    connect_client-HasJoined :
        (s : Server T) (i : ℕ) (address : Address) (e : ℕ) (timeout : ℤ) (t : ChallengeToken)
        → i < length s.slots
        → Returns
            (HasJoined i address e t s)
            (connect_client T S s i address t.client_id e timeout t.user_data)
    unfolding connect_client
    connect_client-HasJoined s i address e timeout t h =
        Returns-then (HasSent i joined) (HasJoined i address e t s)
          (send_client_packet T S joined (keep_alive i s.max_clients) i) _
          (send_client_packet-HasSent joined (keep_alive i s.max_clients) i)
          λ s' v. record {
            connected = v.connected ∙ ap (λ c. c.connected) there;
            client_id = v.client_id ∙ ap (λ c. c.client_id) there;
            user_data = v.user_data ∙ ap (λ c. c.user_data) there;
            address = v.address ∙ ap (λ c. c.address) there;
            encryption_index = v.encryption_index ∙ ap (λ c. c.encryption_index) there;
            others = λ j ne. v.frame.others j ne ∙ beside.others j ne;
            num_clients = v.num_clients;
          }
      where
        joined : Server T
        joined = record s {
          num_connected_clients = (s.num_connected_clients + 1) % 2 ^ 32;
          encryption_manager =
              EncryptionManager.with_mapping T.clock
                (EncryptionManager.set_expire_time T.clock s.encryption_manager e T.clock.never) e
                (λ m. record m { client_index = some i });
          slots = modify s.slots i (connected_slot T S s address t.client_id e timeout t.user_data);
        }

        there :
            slot T joined i
            ≡ connected_slot T S s address t.client_id e timeout t.user_data (slot T s i)
        there =
            get_or-modify_self s.slots i
              (connected_slot T S s address t.client_id e timeout t.user_data) (empty_slot T) h

        beside : IsFrame T i s joined
        beside =
            IsFrame-modify T i s joined
              (connected_slot T S s address t.client_id e timeout t.user_data) refl refl refl

  -- With an encryption as documented, on a sound server with fewer clients than open slots: a
  -- challenge token with 256 bytes of user data, of a client whose id and address are not those of a
  -- client already there, can be encrypted with the challenge key of the server. The connection
  -- response that brings it back, read with the key at an encryption index, puts the client with its
  -- id and user data into the first slot that is not in use, with that address and index. The other
  -- slots stay as they are, and there is one client more.
  pub response_lem :
      (n : ℕ) (S : Sodium) (sound : IsAead S.encrypt S.decrypt)
      (sound' : IsAead S.encrypt_bignonce S.decrypt_bignonce) (s : Server T) (from : Address)
      (t : ChallengeToken) (sequence e : ℕ)
      → IsSound T n s
      → length t.user_data ≡ 256
      → find_client_index_by_address T s from ≡ none
      → find_client_index_by_id T s t.client_id ≡ none
      → (s.num_connected_clients == s.max_clients) ≡ false
      → (sealed : List ℕ) × (i : ℕ) × ((Challenge.write t >>= λ bytes.
            Challenge.encrypt S bytes sequence s.challenge_key)
          ≡ ok sealed)
        × (find_free_client_index T s ≡ some i)
        × Yields
            (HasJoined i from e t s)
            (process_connection_response_packet T S s from sequence sealed (some e))
  unfolding process_connection_response_packet process_response process_challenge read_challenge
      connect_free
  response_lem n S sound sound' s from t sequence e v size no_address no_id room =
      let (buffer, sealed, opened, written, encrypted, sealed_size, decrypted, back) =
        challenge_lem t size S sequence s.challenge_key sound in
      let (i, found, below, free) = find_free_lem T n s v room in
      (
        sealed,
        i,
        rw written encrypted,
        found,
        Yields-Returns (IsSound T n) (HasJoined i from e t s)
            (process_connection_response_packet T S s from sequence sealed (some e))
            (response-Yields T n S sound sound' s from sequence sealed (some e) v sealed_size)
            (rw (decrypted, back, no_address, no_id, room, found, Returns)
              (connect_client-HasJoined S s i from e _ t
                (omega (arith, below, v.slots.size, v.slots.open_size)))),
      )
