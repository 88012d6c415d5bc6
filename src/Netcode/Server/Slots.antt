-- ===== src/Netcode/Server/Slots.antt =====
-- netcode/netcode.c: starting and stopping a server, and what it does with the client of a slot.
use yojimbo_cmake.Common.{
  ℕ, zero, suc, ◌+◌, ◌-◌, ◌%◌, ◌^◌, Bool, true, false, not, ◌&&◌, Option, none, some, List, [], ◌∷◌,
  ◌==◌, if◌then◌else◌, modify, replicate,
}
use yojimbo_cmake.Common.Search.{first}
use yojimbo_cmake.Common.Results.{Result, ok, fault, ◌>>=◌}
use yojimbo_cmake.Netcode.Address.{Address, type_none, is_none, address_equal}
use yojimbo_cmake.Netcode.Replay
use yojimbo_cmake.Netcode.PacketQueue
use yojimbo_cmake.Netcode.PacketQueue.{PacketQueue}
use yojimbo_cmake.Netcode.EncryptionManager
use yojimbo_cmake.Netcode.EncryptionManager.{EncryptionManager}
use yojimbo_cmake.Netcode.ConnectTokenEntries
use yojimbo_cmake.Netcode.Crypto.{Sodium}
use yojimbo_cmake.Netcode.Token.{key_bytes, user_data_bytes}
use yojimbo_cmake.Netcode.Packet.{Packet, disconnect}
use yojimbo_cmake.Netcode.Packet.Read.{given}
use yojimbo_cmake.Netcode.Packet.Write.{write_packet}
use yojimbo_cmake.Netcode.Client.{Route, Timer, num_disconnect_packets}
use yojimbo_cmake.Netcode.Client.Connect.{drain, route, packet_bytes}
use yojimbo_cmake.Netcode.Server.{Event, connection, sent, freed, Slot, Server, slot}

-- The calls of the free function, in this order.
abbrev pub freeing : List ℕ → List Event → List Event
freeing [] log = log
freeing (p ∷ ps) log = freeing ps (freed p ∷ log)

abbrev pub transmitted : Option Route → Address → List ℕ → List Event → List Event
transmitted none a bytes log = log
transmitted (some r) a bytes log = sent r a bytes ∷ log

-- `n--`, for an int
abbrev pub decremented : ℕ → ℕ
decremented n = (n + 2 ^ 32 - 1) % 2 ^ 32

module _ (T : Timer) where
  abbrev pub with_slot : Server T → ℕ → (Slot T → Slot T) → Server T
  with_slot s i f = record s { slots = modify s.slots i f }

  -- The first slot in use that passes a test, and the one free.
  unfoldable pub find_client_index_by_id : Server T → ℕ → Option ℕ
  find_client_index_by_id s client_id =
      first (λ i. (slot T s i).connected && (slot T s i).client_id == client_id) s.max_clients 0

  unfoldable pub find_client_index_by_address : Server T → Address → Option ℕ
  find_client_index_by_address s address =
      if is_none address
      then none
      else first (λ i. (slot T s i).connected && address_equal (slot T s i).address address)
          s.max_clients 0

  unfoldable pub find_free_client_index : Server T → Option ℕ
  find_free_client_index s = first (λ i. not (slot T s i).connected) s.max_clients 0

  module _ (S : Sodium) where
    unfoldable pub send_global_packet : Server T → Packet → Address → List ℕ → Result (Server T)
    send_global_packet s packet to packet_key = do
      bytes ← packet_bytes T (write_packet S packet s.global_sequence packet_key s.protocol_id)
      ok (record s {
        global_sequence = (s.global_sequence + 1) % 2 ^ 64;
        log = transmitted (route T s.has_simulator s.override_send_and_receive to) to bytes s.log;
      })

    -- Once the encryption mapping was touched: the packet goes out with its key.
    unfoldable pub send_with_mapping :
        Server T → Packet → ℕ → ℕ → Bool × EncryptionManager T.clock → Result (Server T)
    send_with_mapping s packet client_index e (false, m) = ok (record s { encryption_manager = m })
    send_with_mapping s packet client_index e (true, m) = do
      packet_key ← given (EncryptionManager.get_send_key T.clock m (some e))
      bytes ←
          packet_bytes T
            (write_packet S packet (slot T s client_index).sequence packet_key s.protocol_id)
      ok (record s {
        encryption_manager = m;
        slots = modify s.slots client_index (λ c. record c {
          sequence = (c.sequence + 1) % 2 ^ 64;
          last_packet_send_time = s.time;
        });
        log =
            transmitted
              (route T s.has_simulator s.override_send_and_receive (slot T s client_index).address)
              (slot T s client_index).address bytes s.log;
      })

    -- An encryption index of -1 is one outside of the arrays.
    unfoldable pub send_client_packet : Server T → Packet → ℕ → Result (Server T)
    send_client_packet s packet client_index = elim (slot T s client_index).encryption_index [
      | none ↦ fault
      | some e ↦ send_with_mapping s packet client_index e (
          EncryptionManager.touch T.clock s.encryption_manager e (slot T s client_index).address
            s.time)
    ]

    unfoldable pub send_disconnects : ℕ → Server T → ℕ → Result (Server T)
    send_disconnects zero s client_index = ok s
    send_disconnects (suc n) s client_index = do
      s ← send_client_packet s disconnect client_index
      send_disconnects n s client_index

    -- The packets that are still in the queue of the client are freed, and the queue is cleared.
    unfoldable pub free_queue : Server T → ℕ → Server T
    free_queue s client_index =
        let queue = (slot T s client_index).packet_queue in
        let (q, popped) = drain (suc queue.num_packets) queue in
        let (q', cleared) = PacketQueue.clear q in
        record s {
          slots = modify s.slots client_index (λ c. record c { packet_queue = q' });
          log = freeing cleared (freeing popped s.log);
        }

    -- The fields of a slot that a disconnection sets back.
    abbrev pub cleared_slot : Slot T → Slot T
    cleared_slot c = record c {
      connected = false;
      confirmed = false;
      client_id = 0;
      sequence = 0;
      last_packet_send_time = T.clock.origin;
      last_packet_receive_time = T.clock.origin;
      address = type_none;
      encryption_index = none;
      user_data = replicate user_data_bytes 0;
    }

    -- The mapping of the client is removed and its slot set back. `client_index[-1]` is outside of
    -- the array.
    unfoldable pub clear_client : Server T → ℕ → Result (Server T)
    clear_client s client_index = elim (slot T s client_index).encryption_index [
      | none ↦ fault
      | some e ↦
          let m =
            EncryptionManager.with_mapping T.clock s.encryption_manager e
              (λ x. record x { client_index = none }) in
          ok (record s {
            encryption_manager =
                (EncryptionManager.remove_encryption_mapping T.clock m
                  (slot T s client_index).address s.time).1;
            slots =
                modify s.slots client_index
                  (λ c. cleared_slot (record c { replay_protection = Replay.reset }));
            num_connected_clients = decremented s.num_connected_clients;
          })
    ]

    unfoldable pub disconnect_client_internal : Server T → ℕ → Bool → Result (Server T)
    disconnect_client_internal s client_index send_disconnect_packets = do
      let called = record s { log = connection client_index false ∷ s.log }
      s ←
          if send_disconnect_packets
          then send_disconnects num_disconnect_packets called client_index
          else ok called
      clear_client (free_queue s client_index) client_index

    unfoldable pub disconnect_client : Server T → ℕ → Result (Server T)
    disconnect_client s client_index =
        if not s.running
        then ok s
        else if not (slot T s client_index).connected
        then ok s
        else if (slot T s client_index).loopback
        then ok s
        else disconnect_client_internal s client_index true

    -- The loop over the clients, with the rounds that are left, from `i` on.
    unfoldable pub disconnect_from : ℕ → Server T → ℕ → Result (Server T)
    disconnect_from zero s i = ok s
    disconnect_from (suc rounds) s i = do
      s ←
          if (slot T s i).connected && not (slot T s i).loopback
          then disconnect_client_internal s i true
          else ok s
      disconnect_from rounds s (i + 1)

    unfoldable pub disconnect_all_clients : Server T → Result (Server T)
    disconnect_all_clients s = if not s.running then ok s else disconnect_from s.max_clients s 0

    unfoldable pub stop : Server T → Result (Server T)
    stop s = if not s.running then ok s else do
      s ← disconnect_all_clients s
      ok (record s {
        running = false;
        max_clients = 0;
        num_connected_clients = 0;
        global_sequence = 0;
        challenge_sequence = 0;
        challenge_key = replicate key_bytes 0;
        connect_token_entries = ConnectTokenEntries.reset T.clock;
        encryption_manager = EncryptionManager.reset T.clock;
      })

    unfoldable pub init_queues : ℕ → List (Slot T) → List (Slot T)
    init_queues zero slots = slots
    init_queues (suc n) [] = []
    init_queues (suc n) (c ∷ slots) =
        record c { packet_queue = PacketQueue.init } ∷ init_queues n slots

    -- `key` is the one that `netcode_generate_key` makes.
    unfoldable pub start : Server T → ℕ → List ℕ → Result (Server T)
    start s max_clients key = do
      s ← if s.running then stop s else ok s
      ok (record s {
        running = true;
        max_clients = max_clients;
        num_connected_clients = 0;
        challenge_sequence = 0;
        challenge_key = key;
        slots = init_queues max_clients s.slots;
      })
