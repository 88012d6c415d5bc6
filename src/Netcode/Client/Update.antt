-- ===== src/Netcode/Client/Update.antt =====
-- netcode/netcode.c: `netcode_client_update` and what the application sends and receives.
use yojimbo_cmake.Common.{
  ℕ, ◌+◌, ◌-◌, ◌%◌, ◌^◌, Bool, false, not, ◌&&◌, Option, none, some, List, ◌∷◌, ltb, if◌then◌else◌,
}
use yojimbo_cmake.Common.Int.{pos}
use yojimbo_cmake.Common.Results.{◌>>=◌, Result, ok}
use yojimbo_cmake.Netcode.Address.{Address}
use yojimbo_cmake.Netcode.PacketQueue
use yojimbo_cmake.Netcode.Crypto.{Sodium}
use yojimbo_cmake.Netcode.Token.{version_info}
use yojimbo_cmake.Netcode.Packet.{Packet, request, response, keep_alive, payload}
use yojimbo_cmake.Netcode.Client.{
  ClientState, connect_token_expired, connection_timed_out, connection_response_timed_out,
  connection_request_timed_out, disconnected, sending_connection_request,
  sending_connection_response, connected, state_number, sent_loopback, freed, Timer, Client,
}
use yojimbo_cmake.Netcode.Client.Connect.{
  Time, send_packet_to_server, disconnect_internal, connect_to_next_server,
}
use yojimbo_cmake.Netcode.Client.Receive.{is_in, receive_packets}

module _ (T : Timer) where
  -- connect_token.timeout_seconds > 0 && last_packet_receive_time + timeout_seconds < time, where
  -- the bits of an `int` from 2 ^ 31 on are those of a negative number
  abbrev pub has_timed_out : Client (Time T) → Bool
  has_timed_out c =
      ltb 0 c.connect_token.timeout_seconds
      && ltb c.connect_token.timeout_seconds (2 ^ 31)
      && T.clock.before
          (T.clock.add_int c.last_packet_receive_time (pos c.connect_token.timeout_seconds)) c.time

  -- The packet to send in each state.
  abbrev pub packet_to_send : Client (Time T) → ClientState → Option Packet
  packet_to_send c sending_connection_request = some (
      request version_info c.connect_token.protocol_id c.connect_token.expire_timestamp
        c.connect_token.nonce c.connect_token.private_data)
  packet_to_send c sending_connection_response =
      some (response c.challenge_token_sequence c.challenge_token_data)
  packet_to_send c connected = some (keep_alive 0 0)
  packet_to_send c other = none

  -- The test for an expired token, in the states between disconnected and connected. The difference
  -- is one of uint64_t values.
  abbrev pub token_expired : Client (Time T) → Bool
  token_expired c =
      ltb (state_number disconnected) (state_number c.state)
      && ltb (state_number c.state) (state_number connected)
      && T.has_elapsed c.time c.connect_start_time
          ((c.connect_token.expire_timestamp + 2 ^ 64 - c.connect_token.create_timestamp) % 2 ^ 64)

  module _ (S : Sodium) where
    unfoldable pub send_some : Client (Time T) → Option Packet → Result (Client (Time T))
    send_some c none = ok c
    send_some c (some packet) =
        if T.clock.before_or_at c.time (T.add_interval c.last_packet_send_time)
        then ok c
        else send_packet_to_server T S c packet

    unfoldable pub send_packets : Client (Time T) → Result (Client (Time T))
    send_packets c = send_some c (packet_to_send c c.state)

    -- The next server, or if there is none, disconnecting.
    unfoldable pub next_or_disconnect : Client (Time T) → ClientState → Result (Client (Time T))
    next_or_disconnect c state = do
      (found, c) ← connect_to_next_server T c
      if found then ok c else disconnect_internal T S c state false

    -- The `switch` on the state.
    unfoldable pub check_timeout : Client (Time T) → ClientState → Result (Client (Time T))
    check_timeout c sending_connection_request =
        if has_timed_out c then next_or_disconnect c connection_request_timed_out else ok c
    check_timeout c sending_connection_response =
        if has_timed_out c then next_or_disconnect c connection_response_timed_out else ok c
    check_timeout c connected =
        if has_timed_out c then disconnect_internal T S c connection_timed_out false else ok c
    check_timeout c other = ok c

    -- The part of `netcode_client_update` behind sending.
    unfoldable pub advance_state : Client (Time T) → Result (Client (Time T))
    advance_state c =
        if token_expired c
        then disconnect_internal T S c connect_token_expired false
        else if c.should_disconnect
        then next_or_disconnect c c.should_disconnect_state
        else check_timeout c c.state

    -- `arriving` are the packets that are there to be received.
    unfoldable pub update :
        Client (Time T) → Time T → ℕ → List (Address × List ℕ) → Result (Client (Time T))
    update c time current_timestamp arriving =
        if c.loopback then ok (record c { time = time }) else do
          c ← receive_packets T S current_timestamp (record c { time = time }) arriving
          c ← send_packets c
          advance_state c

    -- netcode_client_send_packet
    unfoldable pub send_payload : Client (Time T) → List ℕ → Result (Client (Time T))
    send_payload c bytes =
        if not (is_in c connected)
        then ok c
        else if not c.loopback
        then send_packet_to_server T S c (payload bytes)
        else ok (record c {
          sequence = (c.sequence + 1) % 2 ^ 64;
          log = sent_loopback c.client_index bytes c.sequence ∷ c.log;
        })

  -- netcode_client_receive_packet: the address and the sequence number of a packet, or NULL
  unfoldable pub receive_packet : Client (Time T) → Option (ℕ × ℕ) × Client (Time T)
  receive_packet c =
      let (p, q) = PacketQueue.pop c.packet_receive_queue in
      (p, record c { packet_receive_queue = q })

  -- netcode_client_free_packet
  unfoldable pub free_packet : Client (Time T) → ℕ → Client (Time T)
  free_packet c p = record c { log = freed p ∷ c.log }
