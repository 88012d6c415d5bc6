-- ===== src/Netcode/Server/Update.antt =====
-- netcode/netcode.c: `netcode_server_update`, what the application sends and receives, and loopback
-- clients.
use yojimbo_cmake.Common.{
  ℕ, zero, suc, ◌+◌, ◌%◌, ◌^◌, Bool, true, false, not, ◌&&◌, Option, none, some, List, [], ◌∷◌,
  ◌++◌, if◌then◌else◌, length, take, modify, replicate,
}
use yojimbo_cmake.Common.Int.{ltb_ℤ}
use yojimbo_cmake.Common.Results.{Result, ok, ◌>>=◌}
use yojimbo_cmake.Netcode.Address.{Address, type_none}
use yojimbo_cmake.Netcode.PacketQueue
use yojimbo_cmake.Netcode.Crypto.{Sodium}
use yojimbo_cmake.Netcode.Token.{user_data_bytes}
use yojimbo_cmake.Netcode.Packet.{keep_alive, payload}
use yojimbo_cmake.Netcode.Client.{Timer}
use yojimbo_cmake.Netcode.Server.{connection, sent_loopback, freed, Server, slot}
use yojimbo_cmake.Netcode.Server.Slots.{
  with_slot, freeing, decremented, cleared_slot, free_queue, send_client_packet,
  disconnect_client_internal,
}
use yojimbo_cmake.Netcode.Server.Receive.{receive_packets}

module _ (T : Timer) (S : Sodium) where
  abbrev pub keep_alive_due : Server T → ℕ → Bool
  keep_alive_due s i =
      (slot T s i).connected
      && not (slot T s i).loopback
      && T.clock.before_or_at (T.add_interval (slot T s i).last_packet_send_time) s.time

  -- The loops over the clients, with the rounds that are left, from `i` on.
  unfoldable pub send_from : ℕ → Server T → ℕ → Result (Server T)
  send_from zero s i = ok s
  send_from (suc rounds) s i = do
    s ← if keep_alive_due s i then send_client_packet T S s (keep_alive i s.max_clients) i else ok s
    send_from rounds s (i + 1)

  unfoldable pub send_packets : Server T → Result (Server T)
  send_packets s = if not s.running then ok s else send_from s.max_clients s 0

  abbrev pub client_timed_out : Server T → ℕ → Bool
  client_timed_out s i =
      (slot T s i).connected
      && ltb_ℤ 0 (slot T s i).timeout
      && not (slot T s i).loopback
      && T.clock.before_or_at
          (T.clock.add_int (slot T s i).last_packet_receive_time (slot T s i).timeout) s.time

  unfoldable pub check_from : ℕ → Server T → ℕ → Result (Server T)
  check_from zero s i = ok s
  check_from (suc rounds) s i = do
    s ← if client_timed_out s i then disconnect_client_internal T S s i false else ok s
    check_from rounds s (i + 1)

  unfoldable pub check_for_timeouts : Server T → Result (Server T)
  check_for_timeouts s = if not s.running then ok s else check_from s.max_clients s 0

  -- `arriving` are the packets that are there to be received.
  unfoldable pub update : Server T → T.clock.Time → ℕ → List (Address × List ℕ) → Result (Server T)
  update s time now arriving = do
    s ← receive_packets T S now (record s { time = time }) arriving
    s ← send_packets s
    check_for_timeouts s

  -- netcode_server_send_packet
  unfoldable pub send_payload : Server T → ℕ → List ℕ → Result (Server T)
  send_payload s i bytes =
      if not s.running
      then ok s
      else if not (slot T s i).connected
      then ok s
      else if not (slot T s i).loopback
      then (do
        s ←
            if not (slot T s i).confirmed
            then send_client_packet T S s (keep_alive i s.max_clients) i
            else ok s
        send_client_packet T S s (payload bytes) i)
      else ok (record s {
        slots = modify s.slots i (λ c. record c {
          sequence = (c.sequence + 1) % 2 ^ 64;
          last_packet_send_time = s.time;
        });
        log = sent_loopback i bytes (slot T s i).sequence ∷ s.log;
      })

  -- netcode_server_receive_packet: the address and the sequence number of a packet, or NULL
  unfoldable pub receive_packet : Server T → ℕ → Option (ℕ × ℕ) × Server T
  receive_packet s i =
      let (p, q) = PacketQueue.pop (slot T s i).packet_queue in
      if not s.running
      then (none, s)
      else if not (slot T s i).connected
      then (none, s)
      else (p, with_slot T s i (λ c. record c { packet_queue = q }))

  -- netcode_server_free_packet
  unfoldable pub free_packet : Server T → ℕ → Server T
  free_packet s p = record s { log = freed p ∷ s.log }

  unfoldable pub connect_loopback_client : Server T → ℕ → ℕ → Option (List ℕ) → Server T
  connect_loopback_client s i client_id user_data = record s {
    num_connected_clients = (s.num_connected_clients + 1) % 2 ^ 32;
    slots = modify s.slots i (λ c. record c {
      loopback = true;
      connected = true;
      confirmed = true;
      encryption_index = none;
      client_id = client_id;
      sequence = 0;
      address = type_none;
      last_packet_send_time = s.time;
      last_packet_receive_time = s.time;
      user_data = elim user_data [
        | none ↦ replicate user_data_bytes 0
        | some u ↦ take user_data_bytes u
      ];
    });
    log = connection i true ∷ s.log;
  }

  unfoldable pub disconnect_loopback_client : Server T → ℕ → Server T
  disconnect_loopback_client s i =
      let s' = free_queue T S (record s { log = connection i false ∷ s.log }) i in
      record s' {
        slots = modify s'.slots i (λ c. cleared_slot T S (record c { loopback = false }));
        num_connected_clients = decremented s'.num_connected_clients;
      }

  unfoldable pub process_loopback_packet : Server T → ℕ → List ℕ → ℕ → Server T
  process_loopback_packet s i bytes sequence =
      let p = suc (length s.memory) in
      let (taken, q, dropped) = PacketQueue.push (slot T s i).packet_queue p sequence in
      record s {
        memory = s.memory ++ (payload bytes ∷ []);
        slots =
            modify s.slots i
              (λ c. record c { last_packet_receive_time = s.time; packet_queue = q });
        log = freeing dropped s.log;
      }
