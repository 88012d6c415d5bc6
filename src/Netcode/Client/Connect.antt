-- ===== src/Netcode/Client/Connect.antt =====
-- netcode/netcode.c: connecting and disconnecting, and the packets sent to the server.
use yojimbo_cmake.Common.{
  ℕ, zero, suc, ◌+◌, ◌%◌, ◌^◌, Bool, true, false, not, ◌&&◌, ◌||◌, Option, none, some, List, [],
  ◌∷◌, leb, ltb, ◌==◌, if◌then◌else◌, length, get_or, replicate,
}
use yojimbo_cmake.Common.Results.{◌>>=◌, Result, ok, invalid, fault}
use yojimbo_cmake.Netcode.Address.{Address, type_none, ipv4, ipv6}
use yojimbo_cmake.Netcode.Replay
use yojimbo_cmake.Netcode.PacketQueue
use yojimbo_cmake.Netcode.PacketQueue.{PacketQueue}
use yojimbo_cmake.Netcode.Crypto.{Sodium}
use yojimbo_cmake.Netcode.Token.{
  challenge_token_bytes, connect_token_bytes, version_info_bytes, connect_token_nonce_bytes,
  connect_token_private_bytes, key_bytes, max_servers_per_connect,
}
use yojimbo_cmake.Netcode.Token.Connect
use yojimbo_cmake.Netcode.Token.Connect.{ConnectToken}
use yojimbo_cmake.Netcode.Packet.{Packet, disconnect}
use yojimbo_cmake.Netcode.Packet.Write.{write_packet}
use yojimbo_cmake.Netcode.Client.{
  ClientState, invalid_connect_token, disconnected, sending_connection_request, connected,
  state_number, num_disconnect_packets, Route, by_simulator, by_override, by_ipv4, by_ipv6, Event,
  changed, sent, freed, Timer, Client,
}

-- memset( &client->connect_token, 0, sizeof( struct netcode_connect_token_t ) )
abbrev pub no_token : ConnectToken
no_token = record {
  version = replicate version_info_bytes 0;
  protocol_id = 0;
  create_timestamp = 0;
  expire_timestamp = 0;
  nonce = replicate connect_token_nonce_bytes 0;
  private_data = replicate connect_token_private_bytes 0;
  timeout_seconds = 0;
  server_addresses = [];
  client_to_server_key = replicate key_bytes 0;
  server_to_client_key = replicate key_bytes 0;
}

-- The `while ( 1 )` over the packets in the queue, with the packets freed, for so many rounds.
unfoldable pub drain : ℕ → PacketQueue → PacketQueue × List ℕ
drain zero q = (q, [])
drain (suc n) q =
    let (p, q') = PacketQueue.pop q in
    let (q'', ps) = drain n q' in elim p [ none ↦ (q', []) | some packet ↦ (q'', packet.0 ∷ ps) ]

-- The calls of the free function, in this order.
abbrev pub freeing : List ℕ → List Event → List Event
freeing [] log = log
freeing (p ∷ ps) log = freeing ps (freed p ∷ log)

module _ (T : Timer) where
  abbrev pub Time : Type 0
  Time = T.clock.Time

  unfoldable pub set_state : Client Time → ClientState → Client Time
  set_state c state = record c { state = state; log = changed c.state state ∷ c.log }

  unfoldable pub reset_before_next_connect : Client Time → Client Time
  reset_before_next_connect c = record c {
    connect_start_time = c.time;
    last_packet_send_time = T.minus_second c.time;
    last_packet_receive_time = c.time;
    should_disconnect = false;
    should_disconnect_state = disconnected;
    challenge_token_sequence = 0;
    challenge_token_data = replicate challenge_token_bytes 0;
    replay_protection = Replay.reset;
  }

  -- The packets that are still in the queue are freed, and the queue is cleared.
  unfoldable pub free_queue : Client Time → Client Time
  free_queue c =
      let (q, popped) = drain (suc c.packet_receive_queue.num_packets) c.packet_receive_queue in
      let (q', cleared) = PacketQueue.clear q in
      record c { packet_receive_queue = q'; log = freeing cleared (freeing popped c.log) }

  unfoldable pub reset_connection_data : Client Time → ClientState → Client Time
  reset_connection_data c state = free_queue (
      reset_before_next_connect (
        set_state
          (record c {
            sequence = 0;
            loopback = false;
            client_index = 0;
            max_clients = 0;
            connect_start_time = T.clock.origin;
            server_address_index = 0;
            server_address = type_none;
            connect_token = no_token;
            write_packet_key = replicate key_bytes 0;
            read_packet_key = replicate key_bytes 0;
          })
          state))

  -- What carries a packet to an address, if anything does.
  abbrev pub route : Bool → Bool → Address → Option Route
  route true overrides a = some by_simulator
  route false true a = some by_override
  route false false (ipv4 parts port) = some by_ipv4
  route false false (ipv6 parts port) = some by_ipv6
  route false false type_none = none

  abbrev pub transmitted : Option Route → Address → List ℕ → List Event → List Event
  transmitted none a bytes log = log
  transmitted (some r) a bytes log = sent r a bytes ∷ log

  -- NETCODE_ERROR is a packet of 0 bytes.
  abbrev pub packet_bytes : Result (List ℕ) → Result (List ℕ)
  packet_bytes (ok bytes) = ok bytes
  packet_bytes invalid = ok []
  packet_bytes fault = fault

  module _ (S : Sodium) where
    unfoldable pub send_packet_to_server : Client Time → Packet → Result (Client Time)
    send_packet_to_server c packet = do
      bytes ←
          packet_bytes
            (write_packet S packet c.sequence c.write_packet_key c.connect_token.protocol_id)
      ok (record c {
        sequence = (c.sequence + 1) % 2 ^ 64;
        last_packet_send_time = c.time;
        log =
            transmitted (route c.has_simulator c.override_send_and_receive c.server_address)
              c.server_address bytes c.log;
      })

    unfoldable pub send_disconnects : ℕ → Client Time → Result (Client Time)
    send_disconnects zero c = ok c
    send_disconnects (suc n) c = do c ← send_packet_to_server c disconnect; send_disconnects n c

    unfoldable pub disconnect_internal : Client Time → ClientState → Bool → Result (Client Time)
    disconnect_internal c destination_state send_disconnect_packets =
        if leb (state_number c.state) (state_number disconnected)
          || state_number c.state == state_number destination_state
        then ok c
        else do
          c ←
              if not c.loopback
                && send_disconnect_packets
                && ltb (state_number disconnected) (state_number c.state)
              then send_disconnects num_disconnect_packets c
              else ok c
          ok (reset_connection_data c destination_state)

    unfoldable pub disconnect_client : Client Time → Result (Client Time)
    disconnect_client c = disconnect_internal c disconnected true

    -- A token that is refused may have been read in part: `left` is what is then in the struct.
    unfoldable pub connect_read :
        Client Time → Result ConnectToken → ConnectToken → Result (Client Time)
    connect_read c fault left = fault
    connect_read c invalid left =
        ok (set_state (record c { connect_token = left }) invalid_connect_token)
    connect_read c (ok token) left = ok (
        set_state
          (reset_before_next_connect (record c {
            connect_token = token;
            server_address_index = 0;
            server_address = get_or token.server_addresses 0 type_none;
            read_packet_key = token.server_to_client_key;
            write_packet_key = token.client_to_server_key;
          }))
          sending_connection_request)

    unfoldable pub connect : Client Time → List ℕ → ConnectToken → Result (Client Time)
    connect c connect_token left = do
      c ← disconnect_client c
      connect_read c (Connect.read connect_token connect_token_bytes) left

  -- The result of the C function and the client. The array of addresses has 32 places, and those
  -- behind the addresses of the token are `type_none`.
  unfoldable pub connect_to_next_server : Client Time → Result (Bool × Client Time)
  connect_to_next_server c =
      if leb (length c.connect_token.server_addresses) (c.server_address_index + 1)
      then ok (false, c)
      else if leb max_servers_per_connect (c.server_address_index + 1)
      then fault
      else ok (
        true,
        set_state
            (reset_before_next_connect (record c {
              server_address_index = c.server_address_index + 1;
              server_address =
                  get_or c.connect_token.server_addresses (c.server_address_index + 1) type_none;
            }))
            sending_connection_request,
      )

  unfoldable pub connect_loopback : Client Time → ℕ → ℕ → Client Time
  connect_loopback c client_index max_clients = record c {
    state = connected;
    client_index = client_index;
    max_clients = max_clients;
    loopback = true;
  }

  unfoldable pub disconnect_loopback : Client Time → Client Time
  disconnect_loopback c = reset_connection_data c disconnected

  -- A new client, once it has its sockets. `address` is its own: the one it was given, or that of a
  -- socket.
  unfoldable pub create : Bool → Bool → Address → Time → Client Time
  create has_simulator overrides address time = record {
    has_simulator = has_simulator;
    override_send_and_receive = overrides;
    state = disconnected;
    time = time;
    connect_start_time = T.clock.origin;
    last_packet_send_time = T.clock.long_ago;
    last_packet_receive_time = T.clock.long_ago;
    should_disconnect = false;
    should_disconnect_state = disconnected;
    sequence = 0;
    client_index = 0;
    max_clients = 0;
    server_address_index = 0;
    address = address;
    server_address = type_none;
    connect_token = no_token;
    write_packet_key = replicate key_bytes 0;
    read_packet_key = replicate key_bytes 0;
    replay_protection = Replay.reset;
    packet_receive_queue = PacketQueue.init;
    challenge_token_sequence = 0;
    challenge_token_data = replicate challenge_token_bytes 0;
    loopback = false;
    memory = [];
    log = [];
  }
