-- ===== src/Netcode/Client/Handshake.antt =====
-- A client and the two packets that let it in.
use yojimbo_cmake.Common.{
  ℕ, suc, ◌^◌, ◌<◌, ◌≡◌, refl, ◌∙◌, ap, true, false, some, List, [], ◌∷◌, ◌++◌, length,
}
use yojimbo_cmake.Common.Results.{◌>>=◌, ok}
use yojimbo_cmake.Netcode.Address.{Address, address_equal}
use yojimbo_cmake.Netcode.Replay.{already_received, advance_sequence}
use yojimbo_cmake.Netcode.Crypto.{Sodium, IsAead}
use yojimbo_cmake.Netcode.Token.{challenge_token_bytes}
use yojimbo_cmake.Netcode.Packet.{Packet, challenge, keep_alive, packet_type}
use yojimbo_cmake.Netcode.Packet.Write.{write_packet}
use yojimbo_cmake.Netcode.Packet.Read.{is_replay, noted}
use yojimbo_cmake.Netcode.Packet.RoundTrip.{IsValid, packet_lem}
use yojimbo_cmake.Netcode.Client.{
  sending_connection_request, sending_connection_response, connected, changed, freed, Timer, Client,
}
use yojimbo_cmake.Netcode.Client.Connect
use yojimbo_cmake.Netcode.Client.Connect.{Time}
use yojimbo_cmake.Netcode.Client.Receive.{
  is_in, client_allowed_packets, client_context, handle_packet, process_packet_internal,
  process_read, process_packet,
}

module _ (T : Timer) where
  -- The client with a packet in its memory, which is freed again.
  abbrev pub used : Client (Time T) → Packet → Client (Time T) → Client (Time T)
  used c packet c' = record c' {
    memory = c.memory ++ (packet ∷ []);
    log = freed (suc (length c.memory)) ∷ c'.log;
  }

  abbrev pub after_challenge : Client (Time T) → ℕ → List ℕ → Client (Time T)
  after_challenge c n token = used c (challenge n token) (record c {
    challenge_token_sequence = n;
    challenge_token_data = token;
    last_packet_receive_time = c.time;
    state = sending_connection_response;
    log = changed c.state sending_connection_response ∷ c.log;
  })

  abbrev pub after_keep_alive : Client (Time T) → ℕ → ℕ → ℕ → Client (Time T)
  after_keep_alive c sequence i n = used c (keep_alive i n) (record c {
    replay_protection = advance_sequence c.replay_protection sequence;
    last_packet_receive_time = c.time;
    client_index = i;
    max_clients = n;
    state = connected;
    log = changed c.state connected ∷ c.log;
  })

  module _ (from : Address) where
    challenge_lem :
        (c : Client (Time T)) (n : ℕ) (token : List ℕ) (sequence : ℕ)
        → is_in c sending_connection_request ≡ true
        → address_equal from c.server_address ≡ true
        → process_packet_internal T c from (challenge n token) sequence ≡ after_challenge c n token
    unfolding process_packet_internal handle_packet Connect.set_state
    challenge_lem c n token sequence h same = rw (h, same) refl

    keep_alive_lem :
        (c : Client (Time T)) (i n sequence : ℕ)
        → is_in c connected ≡ false
        → is_in c sending_connection_response ≡ true
        → address_equal from c.server_address ≡ true
        → process_packet_internal T
            (record c { replay_protection = advance_sequence c.replay_protection sequence })
            from
            (keep_alive i n)
            sequence
          ≡ after_keep_alive c sequence i n
    unfolding process_packet_internal handle_packet Connect.set_state
    keep_alive_lem c i n sequence h h' same = rw (h, h', same) refl

    -- A packet that the server has written is processed.
    process_written :
        (S : Sodium) (now : ℕ) (c : Client (Time T)) (packet : Packet) (sequence : ℕ)
        → IsAead S.encrypt S.decrypt
        → IsValid packet
        → sequence < 2 ^ 64
        → client_allowed_packets (packet_type packet) ≡ true
        → is_replay (packet_type packet) sequence (some c.replay_protection) ≡ false
        → (bytes : List ℕ) × (write_packet S packet sequence c.read_packet_key
              c.connect_token.protocol_id
            ≡ ok bytes)
          × (process_packet T S now c from bytes
              ≡ process_read T c from (
                ok (packet, sequence),
                noted (packet_type packet) sequence (some c.replay_protection),
              ))
    unfolding process_packet
    process_written S now c packet sequence sound v below allowed fresh =
        let (bytes, writes, few, reads) =
          packet_lem S (client_context T c now) packet sequence c.read_packet_key
            (some c.replay_protection) sound v below refl allowed fresh in
        (bytes, writes, ap (process_read T c from) reads)

    -- A client that is sending connection requests is let in by two packets that its server writes
    -- with the key of the connect token: a challenge, and a keep alive packet whose sequence number
    -- replay protection does not refuse. When it has processed them, it is connected with the index
    -- and the number of clients that the server gave, and has the challenge token and its sequence
    -- number.
    pub handshake_lem :
        (S : Sodium) (now : ℕ) (c : Client (Time T)) (n : ℕ) (token : List ℕ)
        (i max_clients sequence sequence' : ℕ)
        → IsAead S.encrypt S.decrypt
        → c.state ≡ sending_connection_request
        → address_equal from c.server_address ≡ true
        → length token ≡ challenge_token_bytes
        → sequence < 2 ^ 64
        → sequence' < 2 ^ 64
        → already_received c.replay_protection sequence' ≡ false
        → (bytes : List ℕ) × (bytes' : List ℕ) × (c' : Client (Time T)) × (write_packet S
              (challenge n token)
              sequence
              c.read_packet_key
              c.connect_token.protocol_id
            ≡ ok bytes)
          × (write_packet S
                (keep_alive i max_clients)
                sequence'
                c.read_packet_key
                c.connect_token.protocol_id
              ≡ ok bytes')
          × ((do c ← process_packet T S now c from bytes; process_packet T S now c from bytes')
              ≡ ok c')
          × (c'.state ≡ connected)
          × (c'.client_index ≡ i)
          × (c'.max_clients ≡ max_clients)
          × (c'.challenge_token_sequence ≡ n)
          × (c'.challenge_token_data ≡ token)
    unfolding process_read
    handshake_lem S now c n token i max_clients sequence sequence' sound state same size below
          below' fresh =
        let c1 : Client (Time T) = after_challenge c n token in
        let (bytes, writes, processes) =
          process_written S now c (challenge n token) sequence sound size below refl refl in
        let (bytes', writes', processes') =
          process_written S now c1 (keep_alive i max_clients) sequence' sound tt below' refl
            fresh in
        (
          bytes,
          bytes',
          after_keep_alive c1 sequence' i max_clients,
          writes,
          writes',
          rw (processes, challenge_lem c n token sequence (rw state refl) same)
              (processes' ∙ ap ok (keep_alive_lem c1 i max_clients sequence' refl refl same)),
          refl,
          refl,
          refl,
          refl,
          refl,
        )
