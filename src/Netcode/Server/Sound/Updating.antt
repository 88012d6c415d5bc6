-- ===== src/Netcode/Server/Sound/Updating.antt =====
-- netcode/netcode.c: an update of the server on whatever packets arrive.
use yojimbo_cmake.Common.{ℕ, not, List, [], ◌∷◌, leb, length}
use yojimbo_cmake.Common.Results.{ok, Yields, Yields-bind, Yields-if}
use yojimbo_cmake.Netcode.Address.{Address}
use yojimbo_cmake.Netcode.Crypto.{Sodium, IsAead}
use yojimbo_cmake.Netcode.Client.{Timer}
use yojimbo_cmake.Netcode.Server.{Server}
use yojimbo_cmake.Netcode.Server.Receive.{
  read_and_process_packet, receive_simulated, receive_until_empty, receive_packets,
}
use yojimbo_cmake.Netcode.Server.Update.{send_packets, update}
use yojimbo_cmake.Netcode.Server.Sound.{IsSound}
use yojimbo_cmake.Netcode.Server.Sound.Rounds.{send_packets-Yields, check_for_timeouts-Yields}
use yojimbo_cmake.Netcode.Server.Sound.Receiving.{process_packet-Yields}

module _ (T : Timer) (n : ℕ) (S : Sodium) (sound : IsAead S.encrypt S.decrypt)
    (sound' : IsAead S.encrypt_bignonce S.decrypt_bignonce) where
  module _ (now : ℕ) where
    read_and_process_packet-Yields :
        (s : Server T) (from : Address) (bytes : List ℕ)
        → IsSound T n s
        → Yields (IsSound T n) (read_and_process_packet T S now s from bytes)
    unfolding read_and_process_packet
    read_and_process_packet-Yields s from [] v =
        Yields-if (IsSound T n) (not s.running) _ (ok s) v v
    read_and_process_packet-Yields s from (b ∷ bytes) v =
        Yields-if (IsSound T n) (not s.running) _ _ v (
          Yields-if (IsSound T n) (leb (length (b ∷ bytes)) 1) _ _ v
            (process_packet-Yields T n S sound sound' now s from b bytes v))

    receive_simulated-Yields :
        (s : Server T) (arriving : List (Address × List ℕ))
        → IsSound T n s
        → Yields (IsSound T n) (receive_simulated T S now s arriving)
    unfolding receive_simulated
    receive_simulated-Yields s [] v = v
    receive_simulated-Yields s ((from, bytes) ∷ rest) v =
        Yields-bind (IsSound T n) (IsSound T n) (read_and_process_packet T S now s from bytes) _
          (read_and_process_packet-Yields s from bytes v)
          (λ s' v'. receive_simulated-Yields s' rest v')

    receive_until_empty-Yields :
        (s : Server T) (arriving : List (Address × List ℕ))
        → IsSound T n s
        → Yields (IsSound T n) (receive_until_empty T S now s arriving)
    unfolding receive_until_empty
    receive_until_empty-Yields s [] v = v
    receive_until_empty-Yields s ((from, []) ∷ rest) v = v
    receive_until_empty-Yields s ((from, b ∷ bytes) ∷ rest) v =
        Yields-bind (IsSound T n) (IsSound T n) (read_and_process_packet T S now s from (b ∷ bytes))
          _ (read_and_process_packet-Yields s from (b ∷ bytes) v)
          (λ s' v'. receive_until_empty-Yields s' rest v')

  -- With an encryption as documented, an update of a sound server goes through, whatever packets
  -- arrive at whatever time: it reads no byte past the end of a packet or token, no place past those
  -- of the list of connect tokens, and uses no slot, connect token or encryption mapping at an index
  -- of -1. It leaves a sound server: the number of its clients is that of the slots in use, no two
  -- clients in its open slots have the same id or address, and a client that is not a loopback one
  -- has an encryption index.
  pub update-IsSound :
      (s : Server T) (time : T.clock.Time) (now : ℕ) (arriving : List (Address × List ℕ))
      → IsSound T n s
      → Yields (IsSound T n) (update T S s time now arriving)
  unfolding update receive_packets
  update-IsSound s time now arriving v =
      Yields-bind (IsSound T n) (IsSound T n) _ _
        (Yields-if (IsSound T n) s.has_simulator _ _
          (receive_simulated-Yields now (record s { time = time }) arriving
            (record { slots = v.slots; open_slots = v.open_slots }))
          (receive_until_empty-Yields now (record s { time = time }) arriving
            (record { slots = v.slots; open_slots = v.open_slots })))
        λ s1 v1.
          Yields-bind (IsSound T n) (IsSound T n) (send_packets T S s1) _
            (send_packets-Yields T n S sound sound' s1 v1)
            (λ s2 v2. check_for_timeouts-Yields T n S sound sound' s2 v2)
