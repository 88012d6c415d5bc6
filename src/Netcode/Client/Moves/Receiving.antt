-- ===== src/Netcode/Client/Moves/Receiving.antt =====
-- The states that the client goes through while it receives packets.
use yojimbo_cmake.Common.{
  ℕ, suc, ◌++◌, length, ◌<◌, ◌≡◌, refl, sym, subst, Bool, true, false, inl, inr, ◌&&◌, ◌||◌, Option,
  none, some, List, [], ◌∷◌, ◌==◌, if◌then◌else◌, arith,
}
use yojimbo_cmake.Common.Results.{Result, ok, invalid, fault, Returns, Returns-then}
use yojimbo_cmake.Netcode.Address.{Address, address_equal}
use yojimbo_cmake.Netcode.Replay.{ReplayProtection}
use yojimbo_cmake.Netcode.Crypto.{Sodium}
use yojimbo_cmake.Netcode.Packet.{
  Packet, request, denied, challenge, response, keep_alive, payload, disconnect,
}
use yojimbo_cmake.Netcode.Client.{
  ClientState, sending_connection_request, sending_connection_response, connected, Event, changed,
  Timer, Client,
}
use yojimbo_cmake.Netcode.Client.Connect
use yojimbo_cmake.Netcode.Client.Connect.{Time}
use yojimbo_cmake.Netcode.Client.Receive.{
  is_in, handle_packet, process_packet_internal, process_read, process_packet, receive_simulated,
  receive_until_empty,
}
use yojimbo_cmake.Netcode.Client.Moves.{
  Move, challenged, accepted, Trace, move, freeing-Trace, same_state, Follows,
}

module _ (T : Timer) where
  record FirstFollows (s : Client (Time T)) (x : Client (Time T) × List ℕ) : Type 0 where
    first : Follows T s x.0

  left_true : (a b : Bool) → (a && b) ≡ true → a ≡ true
  left_true a b h = ground arith

  handshaking : (n : ℕ) (b : Bool) → ((n == 7 || n == 8) && b) ≡ true → 6 < n
  handshaking n b h = ground arith

  open_connected : (n : ℕ) (b : Bool) → (n == 9 && b) ≡ true → 6 < n
  open_connected n b h = ground arith

  -- From the state that a client is in.
  taking :
      {v : ClientState} {base : List Event} (c : Client (Time T)) (t u : ClientState)
      → Trace v base c.log c.state
      → is_in c t ≡ true
      → Move t u
      → Trace v base (changed c.state u ∷ c.log) u
  taking c t u p h m = move p (subst (λ v. Move v u) (sym (same_state c.state t h)) m)

  module _ {s : Client (Time T)} where
    Follows-if :
        (b : Bool) (x y : Client (Time T) × List ℕ)
        → (b ≡ true → FirstFollows s x)
        → FirstFollows s y
        → FirstFollows s (if b then x else y)
    Follows-if true x y h k = h refl
    Follows-if false x y h k = k

    handle_packet-Follows :
        (c : Client (Time T)) (from : Address) (packet : Packet) (p sequence : ℕ)
        → Follows T s c
        → FirstFollows s (handle_packet T c from packet p sequence)
    unfolding handle_packet Connect.set_state
    handle_packet-Follows c from (request version id expire nonce token) p sequence f = record {
      first = f;
    }
    handle_packet-Follows c from denied p sequence f =
        Follows-if
          ((is_in c sending_connection_request || is_in c sending_connection_response)
            && address_equal from c.server_address)
          _ _
          (λ e. record {
            first = record {
              path = f.path;
              reason = inl refl;
              leaving = λ d. handshaking _ (address_equal from c.server_address) e;
            };
          })
          (record { first = f })
    handle_packet-Follows c from (challenge k token) p sequence f =
        Follows-if (is_in c sending_connection_request && address_equal from c.server_address) _ _
          (λ e. record {
            first = record {
              path =
                  taking c sending_connection_request sending_connection_response f.path
                    (left_true (is_in c sending_connection_request)
                      (address_equal from c.server_address) e)
                    challenged;
              reason = f.reason;
              leaving = λ d. omega arith;
            };
          })
          (record { first = f })
    handle_packet-Follows c from (response k token) p sequence f = record { first = f }
    handle_packet-Follows c from (keep_alive i n) p sequence f =
        Follows-if (address_equal from c.server_address) _ _
          (λ e.
            Follows-if (is_in c connected) _ _
              (λ e. record {
                first = record { path = f.path; reason = f.reason; leaving = f.leaving };
              })
              (Follows-if (is_in c sending_connection_response) _ _
                (λ e'. record {
                  first = record {
                    path = taking c sending_connection_response connected f.path e' accepted;
                    reason = f.reason;
                    leaving = λ d. omega arith;
                  };
                })
                (record { first = f })))
          (record { first = f })
    handle_packet-Follows c from (payload bytes) p sequence f =
        Follows-if (is_in c connected && address_equal from c.server_address) _ _
          (λ e. record { first = record { path = f.path; reason = f.reason; leaving = f.leaving } })
          (record { first = f })
    handle_packet-Follows c from disconnect p sequence f =
        Follows-if (is_in c connected && address_equal from c.server_address) _ _
          (λ e. record {
            first = record {
              path = f.path;
              reason = inr refl;
              leaving = λ d. open_connected _ (address_equal from c.server_address) e;
            };
          })
          (record { first = f })

    process_read-Follows :
        (c : Client (Time T)) (from : Address) (r : Result (Packet × ℕ) × Option ReplayProtection)
        → Follows T s c
        → Returns (Follows T s) (process_read T c from r)
    unfolding process_read process_packet_internal
    process_read-Follows c from (r, none) f = tt
    process_read-Follows c from (fault, some replay) f = tt
    process_read-Follows c from (invalid, some replay) f = record {
      path = f.path;
      reason = f.reason;
      leaving = f.leaving;
    }
    process_read-Follows c from (ok (packet, sequence), some replay) f =
        let g : Follows T s _ =
          (handle_packet-Follows
            (record c { replay_protection = replay; memory = c.memory ++ (packet ∷ []) }) from
            packet (suc (length c.memory)) sequence
            (record { path = f.path; reason = f.reason; leaving = f.leaving })).first in
        record {
          path =
              freeing-Trace
                (handle_packet T
                  (record c { replay_protection = replay; memory = c.memory ++ (packet ∷ []) }) from
                  packet (suc (length c.memory)) sequence).1
                g.path;
          reason = g.reason;
          leaving = g.leaving;
        }

    module _ (S : Sodium) where
      process_packet-Follows :
          (now : ℕ) (c : Client (Time T)) (from : Address) (bytes : List ℕ)
          → Follows T s c
          → Returns (Follows T s) (process_packet T S now c from bytes)
      unfolding process_packet
      process_packet-Follows now c from bytes f = process_read-Follows c from _ f

      pub receive_simulated-Follows :
          (now : ℕ) (c : Client (Time T)) (arriving : List (Address × List ℕ))
          → Follows T s c
          → Returns (Follows T s) (receive_simulated T S now c arriving)
      unfolding receive_simulated
      receive_simulated-Follows now c [] f = f
      receive_simulated-Follows now c ((from, bytes) ∷ rest) f =
          Returns-then (Follows T s) (Follows T s) (process_packet T S now c from bytes) _
            (process_packet-Follows now c from bytes f)
            (λ c' f'. receive_simulated-Follows now c' rest f')

      pub receive_until_empty-Follows :
          (now : ℕ) (c : Client (Time T)) (arriving : List (Address × List ℕ))
          → Follows T s c
          → Returns (Follows T s) (receive_until_empty T S now c arriving)
      unfolding receive_until_empty
      receive_until_empty-Follows now c [] f = f
      receive_until_empty-Follows now c ((from, []) ∷ rest) f = f
      receive_until_empty-Follows now c ((from, b ∷ bytes) ∷ rest) f =
          Returns-then (Follows T s) (Follows T s) (process_packet T S now c from (b ∷ bytes)) _
            (process_packet-Follows now c from (b ∷ bytes) f)
            (λ c' f'. receive_until_empty-Follows now c' rest f')
