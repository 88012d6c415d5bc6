-- ===== src/Netcode/Client/Moves.antt =====
-- The changes of state of the client.
pub mod Receiving
pub mod Updating
use yojimbo_cmake.Common.{
  ℕ, ◌<◌, ◌≡◌, ◌⊎◌, refl, sym, ◌∙◌, ap, Bool, true, false, inr, [], ◌∷◌, ◌==◌, ==_iff, get_or, List,
  Option, none, some, arith,
}
use yojimbo_cmake.Netcode.Address.{Address}
use yojimbo_cmake.Netcode.Packet.{response, disconnect}
use yojimbo_cmake.Netcode.Client.{
  ClientState, connect_token_expired, invalid_connect_token, connection_timed_out,
  connection_response_timed_out, connection_request_timed_out, connection_denied, disconnected,
  sending_connection_request, sending_connection_response, connected, state_number, Route, Event,
  changed, sent, sent_loopback, freed, Timer, Client,
}
use yojimbo_cmake.Netcode.Client.Connect
use yojimbo_cmake.Netcode.Client.Connect.{Time}

-- The states in which the client is connecting or connected.
abbrev pub IsOpen : ClientState → Type 0
IsOpen s = 6 < state_number s

-- One change of state: a server asks for a response, a server lets the client in, the client goes to
-- the next server, or it gives up for one of the reasons there are.
pub data Move : ClientState → ClientState → Type 0 where
  challenged : Move sending_connection_request sending_connection_response
  accepted : Move sending_connection_response connected
  next : {s : ClientState} → IsOpen s → Move s sending_connection_request
  refused : {s : ClientState} → IsOpen s → Move s connection_denied
  closed : {s : ClientState} → IsOpen s → Move s disconnected
  expired : {s : ClientState} → IsOpen s → state_number s < 9 → Move s connect_token_expired
  request_timed_out : Move sending_connection_request connection_request_timed_out
  response_timed_out : Move sending_connection_response connection_response_timed_out
  timed_out : Move connected connection_timed_out

-- The calls that are not of the state change callback.
abbrev pub IsOther : Event → Type 0
IsOther (changed s t) = ⊥
IsOther (sent r a bytes) = Unit
IsOther (sent_loopback i bytes sequence) = Unit
IsOther (freed p) = Unit

-- The calls made since the log was `base` in state `s`: those of the state change callback are for
-- one allowed move each, from the state that the one before it led to.
pub data Trace (s : ClientState) (base : List Event) : List Event → ClientState → Type 0 where
  start : Trace s base base s
  move :
      {log : List Event} {t u : ClientState}
      → Trace s base log t
      → Move t u
      → Trace s base (changed t u ∷ log) u
  other :
      {log : List Event} {t : ClientState} {e : Event}
      → Trace s base log t
      → IsOther e
      → Trace s base (e ∷ log) t

pub freeing-Trace :
    {s : ClientState} {base log : List Event} {t : ClientState} (ps : List ℕ)
    → Trace s base log t
    → Trace s base (Connect.freeing ps log) t
freeing-Trace [] p = p
freeing-Trace (q ∷ ps) p = freeing-Trace ps (other p tt)

pub transmitted-Trace :
    {s : ClientState} {base log : List Event} {t : ClientState} (T : Timer) (r : Option Route)
    (a : Address) (bytes : List ℕ)
    → Trace s base log t
    → Trace s base (Connect.transmitted T r a bytes log) t
transmitted-Trace T none a bytes p = p
transmitted-Trace T (some r) a bytes p = other p tt

-- The state is that with its number.
state_of : ℕ → ClientState
state_of n =
    get_or
      (connect_token_expired ∷ invalid_connect_token ∷ connection_timed_out
        ∷ connection_response_timed_out ∷ connection_request_timed_out ∷ connection_denied
        ∷ disconnected ∷ sending_connection_request ∷ sending_connection_response ∷ [])
      n connected

state_of-state_number : (s : ClientState) → state_of (state_number s) ≡ s
unfolding state_of
state_of-state_number connect_token_expired = refl
state_of-state_number invalid_connect_token = refl
state_of-state_number connection_timed_out = refl
state_of-state_number connection_response_timed_out = refl
state_of-state_number connection_request_timed_out = refl
state_of-state_number connection_denied = refl
state_of-state_number disconnected = refl
state_of-state_number sending_connection_request = refl
state_of-state_number sending_connection_response = refl
state_of-state_number connected = refl

pub same_state : (s t : ClientState) → (state_number s == state_number t) ≡ true → s ≡ t
same_state s t h =
    sym (state_of-state_number s)
    ∙ ap state_of ((==_iff (state_number s) (state_number t)).0 h)
    ∙ state_of-state_number t

-- The reasons that a packet can give for disconnecting.
abbrev pub IsReason : ClientState → Type 0
IsReason s = (s ≡ connection_denied) ⊎ (s ≡ disconnected)

module _ (T : Timer) where
  -- What the client `s` becomes: all changes of state on the way are in the log, and allowed.
  pub record Follows (s c : Client (Time T)) : Type 0 where
    pub path : Trace s.state s.log c.log c.state
    pub reason : IsReason c.should_disconnect_state
    pub leaving : c.should_disconnect ≡ true → IsOpen c.state

  -- A new client has no wish to disconnect.
  pub create-Follows :
      (has_simulator overrides : Bool) (address : Address) (time : Time T)
      → Follows
          (Connect.create T has_simulator overrides address time)
          (Connect.create T has_simulator overrides address time)
  unfolding Connect.create
  create-Follows has_simulator overrides address time = record {
    path = start;
    reason = inr refl;
    leaving = λ d. absurd (clash d);
  }
    where
      clash : false ≡ true → ⊥
      clash h = ground arith
