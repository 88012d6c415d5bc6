-- ===== src/Netcode/Server/Sound/Receiving.antt =====
-- netcode/netcode.c: what a packet that arrives does, on a server that is sound.
use mathlib.Core.Bool.{true≢false}
use yojimbo_cmake.Common.{
  ℕ, suc, ◌/◌, ◌%◌, ◌≡◌, refl, sym, ◌∙◌, false, not, ◌&&◌, inl, inr, Bool-cases, Option, none, some,
  Option-cases, none≢some, List, [], ◌∷◌, ◌++◌, ◌==◌, length, arith,
}
use yojimbo_cmake.Common.Search.{first-some}
use yojimbo_cmake.Common.Results.{Result, ok, invalid, fault, Safe, Yields, Yields-bind, Yields-if}
use yojimbo_cmake.Netcode.Address.{Address, is_none, address_equal, address_equal_none}
use yojimbo_cmake.Netcode.Replay.{ReplayProtection}
use yojimbo_cmake.Netcode.PacketQueue.Fifo.{push-refines}
use yojimbo_cmake.Netcode.EncryptionManager
use yojimbo_cmake.Netcode.EncryptionManager.{EncryptionManager}
use yojimbo_cmake.Netcode.Crypto.{Sodium, IsAead}
use yojimbo_cmake.Netcode.Token.Private
use yojimbo_cmake.Netcode.Token.Safety.{private_read-Safe}
use yojimbo_cmake.Netcode.Packet.{
  Packet, request, denied, challenge, response, keep_alive, payload, disconnect,
}
use yojimbo_cmake.Netcode.Packet.Read.{Context, read_packet}
use yojimbo_cmake.Netcode.Packet.Safety.{IsSized, PacketIsSized, read_packet-Safe}
use yojimbo_cmake.Netcode.Packet.Total.{HasSize, read_packet-HasSize}
use yojimbo_cmake.Netcode.Client.{Timer}
use yojimbo_cmake.Netcode.Server.{Server, slot}
use yojimbo_cmake.Netcode.Server.Slots.{find_client_index_by_address, disconnect_client_internal}
use yojimbo_cmake.Netcode.Server.Receive.{
  handle_packet, process_packet_internal, server_context, replay_of, with_replay, process_read,
  process_with, process_looked_up, process_packet,
}
use yojimbo_cmake.Netcode.Server.Sound.{IsSound}
use yojimbo_cmake.Netcode.Server.Sound.Sending.{
  HasClient, IsSound-quiet, HasClient-quiet, disconnect_client_internal-Yields,
}
use yojimbo_cmake.Netcode.Server.Sound.Rounds.{both, address-HasClient}
use yojimbo_cmake.Netcode.Server.Sound.Requests.{request-Yields, response-Yields}

module _ (T : Timer) (n : ℕ) where
  -- A sound server, and in the slot that a packet was found to come from is a client.
  abbrev IsFrom : Option ℕ → Server T → Type 0
  IsFrom none s = IsSound T n s
  IsFrom (some i) s = HasClient T n i s

  IsFrom-sound : (i : Option ℕ) (s : Server T) → IsFrom i s → IsSound T n s
  IsFrom-sound none s v = v
  IsFrom-sound (some i) s v = v.sound

  -- Allocating a packet, and other changes apart from the slots.
  IsFrom-same :
      (i : Option ℕ) (s s' : Server T)
      → IsFrom i s
      → s'.slots ≡ s.slots
      → s'.num_connected_clients ≡ s.num_connected_clients
      → s'.max_clients ≡ s.max_clients
      → IsFrom i s'
  IsFrom-same none s s' v es en em = record {
    slots = rw (es, en) v.slots;
    open_slots = em ∙ v.open_slots;
  }
  IsFrom-same (some i) s s' v es en em = record {
    sound = record { slots = rw (es, en) v.sound.slots; open_slots = em ∙ v.sound.open_slots };
    below = v.below;
    connected = rw es v.connected;
    index = (v.index.0, rw es v.index.1);
  }

  abbrev FirstIsSound : Server T × List ℕ → Type 0
  FirstIsSound r = IsSound T n r.0

  -- The replay protection that comes back for the slot.
  abbrev ReplayFits : Option ℕ → Option ReplayProtection → Type 0
  ReplayFits none r = Unit
  ReplayFits (some i) r = HasSize r

  with_replay-IsFrom :
      (S : Sodium) (s : Server T) (i : Option ℕ) (r : Option ReplayProtection)
      → IsFrom i s
      → ReplayFits i r
      → IsFrom i (with_replay T S s i r)
  with_replay-IsFrom S s none r v h = v
  with_replay-IsFrom S s (some i) none v h = v
  with_replay-IsFrom S s (some i) (some r) v h =
      HasClient-quiet T n s _ i i _ v refl refl refl
        (λ c. record {
          connected = refl;
          client_id = refl;
          address = refl;
          encryption_index = refl;
        })
        (λ c w. record { indexed = w.indexed; replay_size = h; queue = w.queue })

  module _ (S : Sodium) (sound : IsAead S.encrypt S.decrypt)
      (sound' : IsAead S.encrypt_bignonce S.decrypt_bignonce) where
    handle_packet-Yields :
        (s : Server T) (from : Address) (packet : Packet) (p sequence : ℕ) (e i : Option ℕ)
        → IsFrom i s
        → IsSized packet
        → Yields FirstIsSound (handle_packet T S s from packet p sequence e i)
    unfolding handle_packet
    handle_packet-Yields s from (request version id expire nonce token) p sequence e i v
          (hv, hn, ht) =
        Yields-bind (IsSound T n) FirstIsSound _ _
          (Yields-if (IsSound T n) (s.flags % 2 == 0) _ _
            (request-Yields T n S sound sound' s from token (Private.read token 1024)
              (IsFrom-sound i s v) ht (private_read-Safe token ht))
            (IsFrom-sound i s v))
          λ s' v'. v'
    handle_packet-Yields s from denied p sequence e i v h = IsFrom-sound i s v
    handle_packet-Yields s from (challenge k token) p sequence e i v h = IsFrom-sound i s v
    handle_packet-Yields s from (response k token) p sequence e i v h =
        Yields-bind (IsSound T n) FirstIsSound _ _
          (Yields-if (IsSound T n) (s.flags / 2 % 2 == 0) _ _
            (response-Yields T n S sound sound' s from k token e (IsFrom-sound i s v) h)
            (IsFrom-sound i s v))
          λ s' v'. v'
    handle_packet-Yields s from (keep_alive index max) p sequence e none v h = v
    handle_packet-Yields s from (keep_alive index max) p sequence e (some i) v h =
        IsSound-quiet T n s _ i _ v.sound refl refl refl
          (λ c. record {
            connected = refl;
            client_id = refl;
            address = refl;
            encryption_index = refl;
          })
          (λ c w. record { indexed = w.indexed; replay_size = w.replay_size; queue = w.queue })
    handle_packet-Yields s from (payload bytes) p sequence e none v h = v
    handle_packet-Yields s from (payload bytes) p sequence e (some i) v h =
        IsSound-quiet T n s _ i _ v.sound refl refl refl
          (λ c. record {
            connected = refl;
            client_id = refl;
            address = refl;
            encryption_index = refl;
          })
          (λ c w. record {
            indexed = w.indexed;
            replay_size = w.replay_size;
            queue =
                (push-refines (slot T s i).packet_queue p sequence (v.sound.slots.each i).queue).3;
          })
    handle_packet-Yields s from disconnect p sequence e none v h = v
    handle_packet-Yields s from disconnect p sequence e (some i) v h =
        Yields-bind (IsSound T n) FirstIsSound (disconnect_client_internal T S s i false) _
          (disconnect_client_internal-Yields T n S sound sound' s i false v) (λ s' v'. v')

    process_read-Yields :
        (context : Context) (s : Server T) (from : Address) (e i : Option ℕ)
        (r : Result (Packet × ℕ) × Option ReplayProtection)
        → IsFrom i s
        → Safe (PacketIsSized S context) r.0
        → ReplayFits i r.1
        → Yields (IsSound T n) (process_read T S s from e i r)
    unfolding process_read process_packet_internal
    process_read-Yields context s from e i (fault, replay) v h fits = h
    process_read-Yields context s from e i (invalid, replay) v h fits =
        IsFrom-sound i _ (with_replay-IsFrom S s i replay v fits)
    process_read-Yields context s from e i (ok (packet, sequence), replay) v h fits =
        let s' : Server T = with_replay T S s i replay in
        Yields-bind FirstIsSound (IsSound T n)
          (handle_packet T S (record s' { memory = s'.memory ++ (packet ∷ []) }) from packet
            (suc (length s'.memory)) sequence e i)
          _
          (handle_packet-Yields _ from packet (suc (length s'.memory)) sequence e i
            (IsFrom-same i s' _ (with_replay-IsFrom S s i replay v fits) refl refl refl) h)
          λ (s'', ps) v'. record { slots = v'.slots; open_slots = v'.open_slots }

    read-ReplayFits :
        (context : Context) (s : Server T) (i : Option ℕ) (bytes : List ℕ)
        → IsFrom i s
        → ReplayFits i (read_packet S context bytes (length bytes) (replay_of T S s i)).1
    read-ReplayFits context s none bytes v = tt
    read-ReplayFits context s (some i) bytes v =
        read_packet-HasSize S context (slot T s i).replay_protection
          ((v.sound.slots.each i).replay_size) bytes (length bytes)

    module _ (now : ℕ) where
      process_with-Yields :
          (s : Server T) (from : Address) (b : ℕ) (bytes : List ℕ) (e i : Option ℕ)
          → IsFrom i s
          → Yields (IsSound T n) (process_with T S now s from (b ∷ bytes) e i)
      unfolding process_with
      process_with-Yields s from b bytes e i v =
          elim (Option-cases (EncryptionManager.get_receive_key T.clock s.encryption_manager e)) [
            | inl f ↦
                rw (f, Yields)
                  (Yields-if (IsSound T n) (not (b == 0)) (ok s) _ (IsFrom-sound i s v)
                    (read (EncryptionManager.get_receive_key T.clock s.encryption_manager e)))
            | inr (key, f) ↦
                rw (f, Yields)
                  (read (EncryptionManager.get_receive_key T.clock s.encryption_manager e))
          ]
        where
          read :
              (key : Option (List ℕ))
              → Yields (IsSound T n) (
                  process_read T S s from e i (
                    read_packet S
                      (server_context T S s key now)
                      (b ∷ bytes)
                      (length (b ∷ bytes))
                      (replay_of T S s i)))
          read key =
              process_read-Yields (server_context T S s key now) s from e i _ v
                (read_packet-Safe S (server_context T S s key now) sound sound' (b ∷ bytes)
                  (length (b ∷ bytes)) (replay_of T S s i) (omega arith))
                (read-ReplayFits (server_context T S s key now) s i (b ∷ bytes) v)

      looked_up-Yields :
          (s : Server T) (from : Address) (b : ℕ) (bytes : List ℕ)
          (r : Option ℕ × EncryptionManager T.clock)
          → IsSound T n s
          → Yields (IsSound T n) (process_looked_up T S now s from (b ∷ bytes) r)
      looked_up-Yields s from b bytes (e, m) v =
          process_with-Yields (record s { encryption_manager = m }) from b bytes e none
            (record { slots = v.slots; open_slots = v.open_slots })

      -- The slot that is found for an address is that of a client.
      found-HasClient :
          (s : Server T) (from : Address) (i : ℕ)
          → IsSound T n s
          → find_client_index_by_address T s from ≡ some i
          → HasClient T n i s
      unfolding find_client_index_by_address
      found-HasClient s from i v e = elim (Bool-cases (is_none from)) [
        | inl t ↦ absurd (none≢some i (rw t at e))
        | inr f ↦
            let found =
              first-some (λ i. (slot T s i).connected && address_equal (slot T s i).address from)
                s.max_clients 0 i (rw f at e) in
            let (c, a) =
              both (slot T s i).connected (address_equal (slot T s i).address from) found.passes in
            address-HasClient T n s i v (omega (arith, found.below, v.open_slots)) c
              (elim (Bool-cases (is_none (slot T s i).address)) [
                | inl t ↦
                    absurd (true≢false (sym a ∙ address_equal_none (slot T s i).address from t))
                | inr g ↦ g
              ])
      ]

      pub process_packet-Yields :
          (s : Server T) (from : Address) (b : ℕ) (bytes : List ℕ)
          → IsSound T n s
          → Yields (IsSound T n) (process_packet T S now s from (b ∷ bytes))
      unfolding process_packet
      process_packet-Yields s from b bytes v =
          elim (Option-cases (find_client_index_by_address T s from)) [
            | inl e ↦ rw (e, Yields) (looked_up-Yields s from b bytes _ v)
            | inr (i, e) ↦
                rw (e, Yields)
                  (process_with-Yields s from b bytes (slot T s i).encryption_index (some i)
                    (found-HasClient s from i v e))
          ]
