-- ===== src/Netcode/Client/Safety/Updating.antt =====
-- An update of the client on whatever packets arrive: what it sends and where it goes.
use yojimbo_cmake.Common.{
  ℕ, zero, suc, ◌+◌, refl, Bool, false, Bool-cases, inl, inr, not, ◌&&◌, ◌||◌, Option, none, some,
  List, ltb, leb, ◌==◌, length, arith, ◌≡◌, ◌≤◌,
}
use yojimbo_cmake.Common.Results.{
  Result, ok, invalid, fault, Safe, Yields, Yields-bind, Yields-if, Yields-Returns,
}
use yojimbo_cmake.Netcode.Address.{Address}
use yojimbo_cmake.Netcode.Replay.Accepted.{reset-IsValid}
use yojimbo_cmake.Netcode.PacketQueue.Fifo.{clear-IsValid}
use yojimbo_cmake.Netcode.Crypto.{Sodium, IsAead}
use yojimbo_cmake.Netcode.Packet.{Packet, disconnect}
use yojimbo_cmake.Netcode.Packet.Write.{write_packet}
use yojimbo_cmake.Netcode.Packet.Safety.{IsSized}
use yojimbo_cmake.Netcode.Packet.Total.{Any, write_packet-Safe}
use yojimbo_cmake.Netcode.Client.{
  ClientState, connect_token_expired, invalid_connect_token, connection_timed_out,
  connection_response_timed_out, connection_request_timed_out, connection_denied, disconnected,
  sending_connection_request, sending_connection_response, connected, state_number, Timer, Client,
}
use yojimbo_cmake.Netcode.Client.Connect
use yojimbo_cmake.Netcode.Client.Connect.{
  Time, send_packet_to_server, send_disconnects, disconnect_internal, connect_to_next_server,
}
use yojimbo_cmake.Netcode.Client.Receive.{receive_packets}
use yojimbo_cmake.Netcode.Client.Update.{
  has_timed_out, token_expired, packet_to_send, send_some, send_packets, next_or_disconnect,
  check_timeout, advance_state, update,
}
use yojimbo_cmake.Netcode.Client.Moves.{Follows}
use yojimbo_cmake.Netcode.Client.Moves.Updating.{update-Follows}
use yojimbo_cmake.Netcode.Client.Safety.{
  IsSound, same, receive_simulated-Yields, receive_until_empty-Yields,
}

module _ (T : Timer) (S : Sodium) (sound : IsAead S.encrypt S.decrypt)
    (sound' : IsAead S.encrypt_bignonce S.decrypt_bignonce) where
  -- Sending and disconnecting.
  pub packet_bytes-Yields :
      (r : Result (List ℕ)) → Safe (Any S) r → Yields (Any S) (Connect.packet_bytes T r)
  packet_bytes-Yields (ok bytes) h = tt
  packet_bytes-Yields invalid h = tt
  packet_bytes-Yields fault h = h

  send_packet_to_server-Yields :
      (c : Client (Time T)) (packet : Packet)
      → IsSound T c
      → IsSized packet
      → Yields (IsSound T) (send_packet_to_server T S c packet)
  unfolding send_packet_to_server
  send_packet_to_server-Yields c packet v h =
      Yields-bind (Any S) (IsSound T)
        (Connect.packet_bytes T
          (write_packet S packet c.sequence c.write_packet_key c.connect_token.protocol_id))
        _
        (packet_bytes-Yields _
          (write_packet-Safe S packet c.sequence c.write_packet_key c.connect_token.protocol_id h))
        λ bytes u. same T c _ v refl refl refl refl

  send_disconnects-Yields :
      (n : ℕ) (c : Client (Time T)) → IsSound T c → Yields (IsSound T) (send_disconnects T S n c)
  unfolding send_disconnects
  send_disconnects-Yields zero c v = v
  send_disconnects-Yields (suc n) c v =
      Yields-bind (IsSound T) (IsSound T) (send_packet_to_server T S c disconnect) _
        (send_packet_to_server-Yields c disconnect v tt) (λ c' v'. send_disconnects-Yields n c' v')

  disconnect_internal-Yields :
      (c : Client (Time T)) (state : ClientState) (b : Bool)
      → IsSound T c
      → Yields (IsSound T) (disconnect_internal T S c state b)
  unfolding disconnect_internal Connect.reset_connection_data Connect.free_queue
      Connect.reset_before_next_connect Connect.set_state
  disconnect_internal-Yields c state b v =
      Yields-if (IsSound T)
        (leb (state_number c.state) (state_number disconnected)
          || state_number c.state == state_number state)
        _ _ v
        (Yields-bind (IsSound T) (IsSound T) _ _
          (Yields-if (IsSound T) (not c.loopback && b && ltb 6 (state_number c.state)) _ _
            (send_disconnects-Yields 10 c v) v)
          λ c' v'. record {
            nonce_size = refl;
            private_size = refl;
            challenge_size = refl;
            replay_size = reset-IsValid.size;
            queue = clear-IsValid _;
            addresses = omega arith;
          })

  next_or_disconnect-Yields :
      (c : Client (Time T)) (state : ClientState)
      → IsSound T c
      → Yields (IsSound T) (next_or_disconnect T S c state)
  unfolding next_or_disconnect connect_to_next_server Connect.reset_before_next_connect
      Connect.set_state
  next_or_disconnect-Yields c state v =
      elim (Bool-cases
        (leb (length c.connect_token.server_addresses) (c.server_address_index + 1))) [
          | inl e ↦ rw e (disconnect_internal-Yields c state false v)
          | inr e ↦
              rw (e, in_array (length c.connect_token.server_addresses) _ e v.addresses)
                (record {
                  nonce_size = v.nonce_size;
                  private_size = v.private_size;
                  challenge_size = refl;
                  replay_size = reset-IsValid.size;
                  queue = v.queue;
                  addresses = v.addresses;
                })
        ]
    where
      in_array : (n i : ℕ) → leb n i ≡ false → n ≤ 32 → leb 32 i ≡ false
      in_array n i h k = ground (arith, h, k)

  check_timeout-Yields :
      (c : Client (Time T)) (state : ClientState)
      → IsSound T c
      → Yields (IsSound T) (check_timeout T S c state)
  unfolding check_timeout
  check_timeout-Yields c sending_connection_request v =
      Yields-if (IsSound T) (has_timed_out T c) _ _
        (next_or_disconnect-Yields c connection_request_timed_out v) v
  check_timeout-Yields c sending_connection_response v =
      Yields-if (IsSound T) (has_timed_out T c) _ _
        (next_or_disconnect-Yields c connection_response_timed_out v) v
  check_timeout-Yields c connected v =
      Yields-if (IsSound T) (has_timed_out T c) _ _
        (disconnect_internal-Yields c connection_timed_out false v) v
  check_timeout-Yields c connect_token_expired v = v
  check_timeout-Yields c invalid_connect_token v = v
  check_timeout-Yields c connection_timed_out v = v
  check_timeout-Yields c connection_response_timed_out v = v
  check_timeout-Yields c connection_request_timed_out v = v
  check_timeout-Yields c connection_denied v = v
  check_timeout-Yields c disconnected v = v

  advance_state-Yields :
      (c : Client (Time T)) → IsSound T c → Yields (IsSound T) (advance_state T S c)
  unfolding advance_state
  advance_state-Yields c v =
      Yields-if (IsSound T) (token_expired T c) _ _
        (disconnect_internal-Yields c connect_token_expired false v)
        (Yields-if (IsSound T) c.should_disconnect _ _
          (next_or_disconnect-Yields c c.should_disconnect_state v)
          (check_timeout-Yields c c.state v))

  -- The packet to send has arrays of the right size.
  SomeIsSized : Option Packet → Type 0
  SomeIsSized none = Unit
  SomeIsSized (some packet) = IsSized packet

  packet_to_send-IsSized :
      (c : Client (Time T)) (state : ClientState)
      → IsSound T c
      → SomeIsSized (packet_to_send T c state)
  unfolding SomeIsSized
  packet_to_send-IsSized c sending_connection_request v = (refl, v.nonce_size, v.private_size)
  packet_to_send-IsSized c sending_connection_response v = v.challenge_size
  packet_to_send-IsSized c connected v = tt
  packet_to_send-IsSized c connect_token_expired v = tt
  packet_to_send-IsSized c invalid_connect_token v = tt
  packet_to_send-IsSized c connection_timed_out v = tt
  packet_to_send-IsSized c connection_response_timed_out v = tt
  packet_to_send-IsSized c connection_request_timed_out v = tt
  packet_to_send-IsSized c connection_denied v = tt
  packet_to_send-IsSized c disconnected v = tt

  send_some-Yields :
      (c : Client (Time T)) (packet : Option Packet)
      → IsSound T c
      → SomeIsSized packet
      → Yields (IsSound T) (send_some T S c packet)
  unfolding send_some SomeIsSized
  send_some-Yields c none v h = v
  send_some-Yields c (some packet) v h =
      Yields-if (IsSound T) (T.clock.before_or_at c.time (T.add_interval c.last_packet_send_time)) _
        _ v (send_packet_to_server-Yields c packet v h)

  send_packets-Yields :
      (c : Client (Time T)) → IsSound T c → Yields (IsSound T) (send_packets T S c)
  unfolding send_packets
  send_packets-Yields c v =
      send_some-Yields c (packet_to_send T c c.state) v (packet_to_send-IsSized c c.state v)

  -- With an encryption as documented, on a client whose arrays have the right sizes, whose queue is
  -- valid and whose token has at most 32 addresses, an update goes through without a read outside
  -- of a packet or of the addresses of the token, whatever packets arrive at whatever time, and
  -- leaves such a client.
  pub update-Yields :
      (c : Client (Time T)) (time : Time T) (now : ℕ) (arriving : List (Address × List ℕ))
      → IsSound T c
      → Yields (IsSound T) (update T S c time now arriving)
  unfolding update receive_packets
  update-Yields c time now arriving v =
      Yields-if (IsSound T) c.loopback _ _ (same T c _ v refl refl refl refl) (
        Yields-bind (IsSound T) (IsSound T) _ _
          (Yields-if (IsSound T) c.has_simulator _ _
            (receive_simulated-Yields T S sound sound' now (record c { time = time }) arriving
              (same T c _ v refl refl refl refl))
            (receive_until_empty-Yields T S sound sound' now (record c { time = time }) arriving
              (same T c _ v refl refl refl refl)))
          λ c1 v1.
            Yields-bind (IsSound T) (IsSound T) (send_packets T S c1) _ (send_packets-Yields c1 v1)
              (λ c2 v2. advance_state-Yields c2 v2))

  -- With an encryption as documented, on a client whose arrays have the right sizes, whose queue is
  -- valid, whose token has at most 32 addresses, and which wishes to disconnect only while it is
  -- connecting or connected and for one of the two reasons for it, an update goes through, each
  -- change of state that it announces is one of the allowed moves, from the state that the change
  -- before led to, the last one leads to the state of the client at the end, and it leaves a client
  -- that wishes to disconnect only so.
  pub update_moves :
      (c : Client (Time T)) (time : Time T) (now : ℕ) (arriving : List (Address × List ℕ))
      → IsSound T c
      → Follows T c c
      → Yields (Follows T c) (update T S c time now arriving)
  update_moves c time now arriving v f =
      Yields-Returns (IsSound T) (Follows T c) (update T S c time now arriving)
        (update-Yields c time now arriving v) (update-Follows T S c time now arriving f)
