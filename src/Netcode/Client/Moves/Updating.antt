-- ===== src/Netcode/Client/Moves/Updating.antt =====
-- The states that the client goes through in an update.
use yojimbo_cmake.Common.{
  ℕ, zero, suc, length, ◌+◌, ◌<◌, ◌≡◌, refl, sym, ◌∙◌, subst, Bool, true, false, Bool-cases, inl,
  inr, not, ◌&&◌, ◌||◌, Option, none, some, List, ltb, leb, ◌==◌, arith,
}
use yojimbo_cmake.Common.Results.{
  Result, ok, invalid, fault, Returns, Returns-bind, Returns-then, Returns-if, Returns-weaken,
}
use yojimbo_cmake.Netcode.Address.{Address}
use yojimbo_cmake.Netcode.Crypto.{Sodium}
use yojimbo_cmake.Netcode.PacketQueue
use yojimbo_cmake.Netcode.Token.{max_servers_per_connect}
use yojimbo_cmake.Netcode.Packet.{Packet, disconnect}
use yojimbo_cmake.Netcode.Packet.Write.{write_packet}
use yojimbo_cmake.Netcode.Client.{
  ClientState, connect_token_expired, invalid_connect_token, connection_timed_out,
  connection_response_timed_out, connection_request_timed_out, connection_denied, disconnected,
  sending_connection_request, sending_connection_response, connected, state_number, Event, Timer,
  Client,
}
use yojimbo_cmake.Netcode.Client.Connect
use yojimbo_cmake.Netcode.Client.Connect.{
  Time, send_packet_to_server, send_disconnects, disconnect_internal, connect_to_next_server,
}
use yojimbo_cmake.Netcode.Client.Receive.{receive_packets}
use yojimbo_cmake.Netcode.Client.Update.{
  has_timed_out, token_expired, packet_to_send, send_some, send_packets, next_or_disconnect,
  check_timeout, advance_state, update,
}
use yojimbo_cmake.Netcode.Client.Moves.{
  Move, next, refused, closed, expired, request_timed_out, response_timed_out, timed_out, Trace,
  move, freeing-Trace, transmitted-Trace, IsOpen, IsReason, Follows,
}
use yojimbo_cmake.Netcode.Client.Moves.Receiving.{
  receive_simulated-Follows, receive_until_empty-Follows,
}

module _ (T : Timer) where
  -- Sending leaves the state as it is.
  abbrev SameState : Client (Time T) → Client (Time T) → Client (Time T) → Type 0
  SameState t c c' = Follows T t c' × (c'.state ≡ c.state)

  -- In one state a timeout is a move to another.
  timeout-Move : (c : Client (Time T)) (t u : ClientState) → c.state ≡ t → Move t u → Move c.state u
  timeout-Move c t u e m = subst (λ v. Move v u) (sym e) m

  expiring : (n : ℕ) (b : Bool) → (ltb 6 n && ltb n 9 && b) ≡ true → (6 < n) × (n < 9)
  expiring n b h = ground arith

  reason-Move : (t u : ClientState) → IsOpen t → IsReason u → Move t u
  reason-Move t u o (inl e) = subst (Move t) (sym e) (refused o)
  reason-Move t u o (inr e) = subst (Move t) (sym e) (closed o)

  -- Emptying the queue only frees packets, so a disconnect is one change of state.
  free_queue-Trace :
      {v t : ClientState} {base : List Event} (c : Client (Time T))
      → Trace v base c.log t
      → Trace v base (Connect.free_queue T c).log t
  unfolding Connect.free_queue
  free_queue-Trace c p =
      freeing-Trace
        (PacketQueue.clear
          (Connect.drain (suc c.packet_receive_queue.num_packets) c.packet_receive_queue).0).1
        (freeing-Trace
          (Connect.drain (suc c.packet_receive_queue.num_packets) c.packet_receive_queue).1 p)

  reset-Trace :
      {v : ClientState} {base : List Event} (c : Client (Time T)) (state : ClientState)
      → Trace v base c.log c.state
      → Move c.state state
      → Trace v base (Connect.reset_connection_data T c state).log state
  unfolding Connect.reset_connection_data Connect.reset_before_next_connect Connect.set_state
  reset-Trace c state p m = free_queue-Trace _ (move p m)

  module _ {s : Client (Time T)} (S : Sodium) where
    send_packet_to_server-Follows :
        (c : Client (Time T)) (packet : Packet)
        → Follows T s c
        → Returns (SameState s c) (send_packet_to_server T S c packet)
    unfolding send_packet_to_server
    send_packet_to_server-Follows c packet f =
        Returns-bind (SameState s c)
          (Connect.packet_bytes T
            (write_packet S packet c.sequence c.write_packet_key c.connect_token.protocol_id))
          _
          λ bytes. (
            record {
              path =
                  transmitted-Trace T
                    (Connect.route T c.has_simulator c.override_send_and_receive c.server_address)
                    c.server_address bytes f.path;
              reason = f.reason;
              leaving = f.leaving;
            },
            refl,
          )

    send_disconnects-Follows :
        (n : ℕ) (c : Client (Time T))
        → Follows T s c
        → Returns (SameState s c) (send_disconnects T S n c)
    unfolding send_disconnects
    send_disconnects-Follows zero c f = (f, refl)
    send_disconnects-Follows (suc n) c f =
        Returns-then (SameState s c) (SameState s c) (send_packet_to_server T S c disconnect) _
          (send_packet_to_server-Follows c disconnect f)
          (λ c' (f', e).
            Returns-map-state c c' e (send_disconnects T S n c') (send_disconnects-Follows n c' f'))
      where
        Returns-map-state :
            (c c' : Client (Time T))
            → c'.state ≡ c.state
            → (r : Result (Client (Time T))) → Returns (SameState s c') r
            → Returns (SameState s c) r
        Returns-map-state c c' e (ok d) (g, h) = (g, h ∙ e)
        Returns-map-state c c' e invalid h = tt
        Returns-map-state c c' e fault h = tt

    disconnect_internal-Follows :
        (c : Client (Time T)) (state : ClientState) (b : Bool)
        → Follows T s c
        → (IsOpen c.state → Move c.state state)
        → Returns (Follows T s) (disconnect_internal T S c state b)
    unfolding disconnect_internal Connect.reset_connection_data Connect.free_queue
        Connect.reset_before_next_connect Connect.set_state
    disconnect_internal-Follows c state b f m = elim (Bool-cases stops) [
      | inl e ↦ rw e f
      | inr e ↦ rw e (
          Returns-then (SameState s c) (Follows T s) _ _
            (Returns-if (SameState s c) (not c.loopback && b && ltb 6 (state_number c.state)) _ _
              (λ e'. send_disconnects-Follows 10 c f) (f, refl))
            λ c' (f', same). record {
              path =
                  reset-Trace c' state f'.path
                    (subst (λ v. Move v state) (sym same) (m (is_open (state_number c.state) _ e)));
              reason = inr refl;
              leaving = λ d. absurd (clash d);
            })
    ]
      where
        stops : Bool
        stops =
            leb (state_number c.state) (state_number disconnected)
            || state_number c.state == state_number state

        is_open : (n : ℕ) (b : Bool) → (leb n 6 || b) ≡ false → 6 < n
        is_open n b h = ground arith

        clash : false ≡ true → ⊥
        clash h = ground arith

    next_or_disconnect-Follows :
        (c : Client (Time T)) (state : ClientState)
        → Follows T s c
        → IsOpen c.state
        → Move c.state state
        → Returns (Follows T s) (next_or_disconnect T S c state)
    unfolding next_or_disconnect connect_to_next_server Connect.reset_before_next_connect
        Connect.set_state
    next_or_disconnect-Follows c state f opened m =
        elim (Bool-cases
          (leb (length c.connect_token.server_addresses) (c.server_address_index + 1))) [
            | inl e ↦ rw e (disconnect_internal-Follows c state false f (λ o. m))
            | inr e ↦ elim (Bool-cases (leb max_servers_per_connect (c.server_address_index + 1))) [
              | inl outside ↦ rw (e, outside, Returns) tt
              | inr inside ↦
                  rw (e, inside)
                    (record {
                      path = move f.path (next opened);
                      reason = inr refl;
                      leaving = λ d. omega arith;
                    })
            ]
          ]

    check_timeout-Follows :
        (c : Client (Time T)) (t : ClientState)
        → c.state ≡ t
        → Follows T s c
        → Returns (Follows T s) (check_timeout T S c t)
    unfolding check_timeout
    check_timeout-Follows c sending_connection_request e f =
        Returns-if (Follows T s) (has_timed_out T c) _ _
          (λ h.
            next_or_disconnect-Follows c connection_request_timed_out f
              (subst IsOpen (sym e) (omega arith))
              (timeout-Move c _ connection_request_timed_out e request_timed_out))
          f
    check_timeout-Follows c sending_connection_response e f =
        Returns-if (Follows T s) (has_timed_out T c) _ _
          (λ h.
            next_or_disconnect-Follows c connection_response_timed_out f
              (subst IsOpen (sym e) (omega arith))
              (timeout-Move c _ connection_response_timed_out e response_timed_out))
          f
    check_timeout-Follows c connected e f =
        Returns-if (Follows T s) (has_timed_out T c) _ _
          (λ h.
            disconnect_internal-Follows c connection_timed_out false f
              (λ o. timeout-Move c _ connection_timed_out e timed_out))
          f
    check_timeout-Follows c connect_token_expired e f = f
    check_timeout-Follows c invalid_connect_token e f = f
    check_timeout-Follows c connection_timed_out e f = f
    check_timeout-Follows c connection_response_timed_out e f = f
    check_timeout-Follows c connection_request_timed_out e f = f
    check_timeout-Follows c connection_denied e f = f
    check_timeout-Follows c disconnected e f = f

    advance_state-Follows :
        (c : Client (Time T)) → Follows T s c → Returns (Follows T s) (advance_state T S c)
    unfolding advance_state
    advance_state-Follows c f =
        Returns-if (Follows T s) (token_expired T c) _ _
          (λ h.
            let (o, i) = expiring (state_number c.state) _ h in
            disconnect_internal-Follows c connect_token_expired false f (λ o'. expired o i))
          (Returns-if (Follows T s) c.should_disconnect _ _
            (λ d.
              next_or_disconnect-Follows c c.should_disconnect_state f (f.leaving d)
                (reason-Move c.state c.should_disconnect_state (f.leaving d) f.reason))
            (check_timeout-Follows c c.state refl f))

    send_some-Follows :
        (c : Client (Time T)) (packet : Option Packet)
        → Follows T s c
        → Returns (Follows T s) (send_some T S c packet)
    unfolding send_some
    send_some-Follows c none f = f
    send_some-Follows c (some packet) f =
        Returns-if (Follows T s)
          (T.clock.before_or_at c.time (T.add_interval c.last_packet_send_time)) _ _ (λ e. f)
          (Returns-weaken (SameState s c) (Follows T s) (send_packet_to_server T S c packet)
            (send_packet_to_server-Follows c packet f) (λ c' x. x.0))

    send_packets-Follows :
        (c : Client (Time T)) → Follows T s c → Returns (Follows T s) (send_packets T S c)
    unfolding send_packets
    send_packets-Follows c f = send_some-Follows c (packet_to_send T c c.state) f

  -- Whatever packets arrive, an update changes the state of the client by allowed moves only, and
  -- leaves a wish to disconnect only in an open state, with one of the two reasons for it.
  pub update-Follows :
      (S : Sodium) (c : Client (Time T)) (time : Time T) (now : ℕ)
      (arriving : List (Address × List ℕ))
      → Follows T c c
      → Returns (Follows T c) (update T S c time now arriving)
  unfolding update receive_packets
  update-Follows S c time now arriving f =
      Returns-if (Follows T c) c.loopback _ _ (λ e. f')
        (Returns-then (Follows T c) (Follows T c) _ _
          (Returns-if (Follows T c) c.has_simulator _ _
            (λ e. receive_simulated-Follows T S now (record c { time = time }) arriving f')
            (receive_until_empty-Follows T S now (record c { time = time }) arriving f'))
          λ c1 f1.
            Returns-then (Follows T c) (Follows T c) (send_packets T S c1) _
              (send_packets-Follows S c1 f1) (λ c2 f2. advance_state-Follows S c2 f2))
    where
      f' : Follows T c (record c { time = time })
      f' = record { path = f.path; reason = f.reason; leaving = f.leaving }
