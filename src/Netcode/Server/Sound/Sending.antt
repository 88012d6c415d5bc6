-- ===== src/Netcode/Server/Sound/Sending.antt =====
-- netcode/netcode.c: the server sends to a client that is in its slot, and disconnects it.
use yojimbo_cmake.Common.{
  ℕ, zero, suc, ◌+◌, ◌%◌, ◌^◌, ◌<◌, ◌≡◌, refl, sym, ◌∙◌, Bool, true, false, some, List, ◌∷◌, modify,
}
use yojimbo_cmake.Common.Results.{Yields, Yields-bind, Yields-if}
use mathlib.Core.Bool.{true≢false}
use yojimbo_cmake.Netcode.Address.{Address}
use yojimbo_cmake.Netcode.Replay.Accepted.{reset-IsValid}
use yojimbo_cmake.Netcode.PacketQueue.Fifo.{clear-IsValid}
use yojimbo_cmake.Netcode.EncryptionManager
use yojimbo_cmake.Netcode.EncryptionManager.{EncryptionManager}
use yojimbo_cmake.Netcode.Crypto.{Sodium, IsAead}
use yojimbo_cmake.Netcode.Packet.{Packet, disconnect}
use yojimbo_cmake.Netcode.Packet.Write.{write_packet}
use yojimbo_cmake.Netcode.Packet.Safety.{IsSized}
use yojimbo_cmake.Netcode.Packet.Total.{Any, write_packet-Safe}
use yojimbo_cmake.Netcode.Client.{Timer}
use yojimbo_cmake.Netcode.Client.Connect.{packet_bytes}
use yojimbo_cmake.Netcode.Client.Safety.Updating.{packet_bytes-Yields}
use yojimbo_cmake.Netcode.Server.{Slot, Server, slot, connection}
use yojimbo_cmake.Netcode.Server.Slots.{
  send_global_packet, send_with_mapping, send_client_packet, send_disconnects, free_queue,
  clear_client, disconnect_client_internal,
}
use yojimbo_cmake.Netcode.Server.Sound.{SlotIsSound, IsSound, IsLike, modify-IsLike, modify-quiet}
use yojimbo_cmake.Netcode.Server.Sound.Changes.{modify-vacate}

module _ (T : Timer) (n : ℕ) where
  -- A sound server whose slot `i` is in use by a client with an encryption index.
  pub record HasClient (i : ℕ) (s : Server T) : Type 0 where
    pub sound : IsSound T n s
    pub below : i < n
    pub connected : (slot T s i).connected ≡ true
    pub index : (e : ℕ) × ((slot T s i).encryption_index ≡ some e)

  -- A change to a slot that leaves its client as it is.
  pub IsSound-quiet :
      (s s' : Server T) (i : ℕ) (f : Slot T → Slot T)
      → IsSound T n s
      → s'.slots ≡ modify s.slots i f
      → s'.num_connected_clients ≡ s.num_connected_clients
      → s'.max_clients ≡ s.max_clients
      → ((c : Slot T) → IsLike T (f c) c)
      → ((c : Slot T) → SlotIsSound T c → SlotIsSound T (f c))
      → IsSound T n s'
  IsSound-quiet s s' i f v es en em like k = record {
    slots = rw (es, en) (modify-quiet T n s.num_connected_clients s.slots i f v.slots like k);
    open_slots = em ∙ v.open_slots;
  }

  pub HasClient-quiet :
      (s s' : Server T) (i j : ℕ) (f : Slot T → Slot T)
      → HasClient i s
      → s'.slots ≡ modify s.slots j f
      → s'.num_connected_clients ≡ s.num_connected_clients
      → s'.max_clients ≡ s.max_clients
      → ((c : Slot T) → IsLike T (f c) c)
      → ((c : Slot T) → SlotIsSound T c → SlotIsSound T (f c))
      → HasClient i s'
  HasClient-quiet s s' i j f v es en em like k =
      let l = modify-IsLike T s.slots j i f like in
      record {
        sound = IsSound-quiet s s' j f v.sound es en em like k;
        below = v.below;
        connected = rw es (l.connected ∙ v.connected);
        index = (v.index.0, rw es (l.encryption_index ∙ v.index.1));
      }

  module _ (S : Sodium) (sound : IsAead S.encrypt S.decrypt)
      (sound' : IsAead S.encrypt_bignonce S.decrypt_bignonce) where
    -- The bytes of a packet, of which NETCODE_ERROR are 0.
    packet-Yields :
        (packet : Packet) (sequence : ℕ) (key : List ℕ) (protocol_id : ℕ)
        → IsSized packet
        → Yields (Any S) (packet_bytes T (write_packet S packet sequence key protocol_id))
    packet-Yields packet sequence key protocol_id h =
        packet_bytes-Yields T S sound sound' _
          (write_packet-Safe S packet sequence key protocol_id h)

    pub send_global_packet-Yields :
        (s : Server T) (packet : Packet) (to : Address) (key : List ℕ)
        → IsSound T n s
        → IsSized packet
        → Yields (IsSound T n) (send_global_packet T S s packet to key)
    unfolding send_global_packet
    send_global_packet-Yields s packet to key v h =
        Yields-bind (Any S) (IsSound T n)
          (packet_bytes T (write_packet S packet s.global_sequence key s.protocol_id)) _
          (packet-Yields packet s.global_sequence key s.protocol_id h)
          λ bytes u. record { slots = v.slots; open_slots = v.open_slots }

    send_with_mapping-Yields :
        (s : Server T) (packet : Packet) (i e : ℕ) (r : Bool × EncryptionManager T.clock)
        → HasClient i s
        → IsSized packet
        → Yields (HasClient i) (send_with_mapping T S s packet i e r)
    unfolding send_with_mapping EncryptionManager.get_send_key
    send_with_mapping-Yields s packet i e (false, m) v h = record {
      sound = record { slots = v.sound.slots; open_slots = v.sound.open_slots };
      below = v.below;
      connected = v.connected;
      index = v.index;
    }
    send_with_mapping-Yields s packet i e (true, m) v h =
        Yields-bind (Any S) (HasClient i)
          (packet_bytes T (
            write_packet S packet (slot T s i).sequence
              (EncryptionManager.mapping T.clock m e).send_key s.protocol_id))
          _
          (packet-Yields packet (slot T s i).sequence
            (EncryptionManager.mapping T.clock m e).send_key s.protocol_id h)
          λ bytes u.
            HasClient-quiet s _ i i
              (λ c. record c {
                sequence = (c.sequence + 1) % 2 ^ 64;
                last_packet_send_time = s.time;
              })
              v refl refl refl
              (λ c. record {
                connected = refl;
                client_id = refl;
                address = refl;
                encryption_index = refl;
              })
              (λ c w. record { indexed = w.indexed; replay_size = w.replay_size; queue = w.queue })

    pub send_client_packet-Yields :
        (s : Server T) (packet : Packet) (i : ℕ)
        → HasClient i s
        → IsSized packet
        → Yields (HasClient i) (send_client_packet T S s packet i)
    unfolding send_client_packet
    send_client_packet-Yields s packet i v h =
        let (e, at_e) = v.index in rw (at_e, Yields) (send_with_mapping-Yields s packet i e _ v h)

    send_disconnects-Yields :
        (k : ℕ) (s : Server T) (i : ℕ)
        → HasClient i s
        → Yields (HasClient i) (send_disconnects T S k s i)
    unfolding send_disconnects
    send_disconnects-Yields zero s i v = v
    send_disconnects-Yields (suc k) s i v =
        Yields-bind (HasClient i) (HasClient i) (send_client_packet T S s disconnect i) _
          (send_client_packet-Yields s disconnect i v tt)
          (λ s' v'. send_disconnects-Yields k s' i v')

    free_queue-HasClient : (s : Server T) (i : ℕ) → HasClient i s → HasClient i (free_queue T S s i)
    unfolding free_queue
    free_queue-HasClient s i v =
        HasClient-quiet s _ i i _ v refl refl refl
          (λ c. record {
            connected = refl;
            client_id = refl;
            address = refl;
            encryption_index = refl;
          })
          (λ c w. record {
            indexed = w.indexed;
            replay_size = w.replay_size;
            queue = clear-IsValid _;
          })

    clear_client-Yields :
        (s : Server T) (i : ℕ) → HasClient i s → Yields (IsSound T n) (clear_client T S s i)
    unfolding clear_client
    clear_client-Yields s i v =
        let (e, at_e) = v.index in
        rw (at_e, Yields)
          (record {
            slots =
                modify-vacate T n s.num_connected_clients s.slots i _ v.sound.slots v.below
                  v.connected (λ c. refl)
                  (λ c w. record {
                    indexed = λ u. absurd (true≢false (sym u));
                    replay_size = reset-IsValid.size;
                    queue = w.queue;
                  });
            open_slots = v.sound.open_slots;
          })

    -- A client in its slot is disconnected without an access outside of the arrays.
    pub disconnect_client_internal-Yields :
        (s : Server T) (i : ℕ) (b : Bool)
        → HasClient i s
        → Yields (IsSound T n) (disconnect_client_internal T S s i b)
    unfolding disconnect_client_internal
    disconnect_client_internal-Yields s i b v =
        Yields-bind (HasClient i) (IsSound T n) _ _
          (Yields-if (HasClient i) b _ _ (send_disconnects-Yields 10 _ i called) called)
          λ s' v'. clear_client-Yields (free_queue T S s' i) i (free_queue-HasClient s' i v')
      where
        called : HasClient i (record s { log = connection i false ∷ s.log })
        called = record {
          sound = record { slots = v.sound.slots; open_slots = v.sound.open_slots };
          below = v.below;
          connected = v.connected;
          index = v.index;
        }
