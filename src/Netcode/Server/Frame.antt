-- ===== src/Netcode/Server/Frame.antt =====
-- netcode/netcode.c: which slots sending to a client of the server, or disconnecting it, may change.
pub mod Sweep
pub mod Stopped
pub mod Timeouts
use yojimbo_cmake.Common.{
  ℕ, zero, suc, ◌+◌, ◌%◌, ◌^◌, ◌<◌, ◌≡◌, ◌≢◌, refl, ap, ◌∙◌, Bool, true, false, Option, none, some,
  Option-cases, inl, inr, List, ◌∷◌, if◌then◌else◌, length, modify, get_or, length-modify,
  get_or-modify_self, get_or-modify_ne, arith,
}
use yojimbo_cmake.Common.Results.{
  Result, ok, invalid, fault, ◌>>=◌, Returns, Returns-bind, Returns-then, Returns-if,
  Returns-weaken,
}
use yojimbo_cmake.Netcode.EncryptionManager
use yojimbo_cmake.Netcode.EncryptionManager.{EncryptionManager}
use yojimbo_cmake.Netcode.Crypto.{Sodium}
use yojimbo_cmake.Netcode.Packet.{Packet, disconnect}
use yojimbo_cmake.Netcode.Packet.Read.{given}
use yojimbo_cmake.Netcode.Packet.Write.{write_packet}
use yojimbo_cmake.Netcode.Client.{Timer}
use yojimbo_cmake.Netcode.Client.Connect.{packet_bytes}
use yojimbo_cmake.Netcode.Server.{Slot, Server, empty_slot, slot, connection}
use yojimbo_cmake.Netcode.Server.Slots.{
  send_with_mapping, send_client_packet, send_disconnects, free_queue, clear_client,
  disconnect_client_internal,
}

module _ (T : Timer) where
  -- Only slot `i` may differ.
  pub record IsFrame (i : ℕ) (s s' : Server T) : Type 0 where
    pub time : s'.time ≡ s.time
    pub size : length s'.slots ≡ length s.slots
    pub max_clients : s'.max_clients ≡ s.max_clients
    pub others : (j : ℕ) → i ≢ j → slot T s' j ≡ slot T s j

  pub IsFrame-refl :
      (i : ℕ) (s s' : Server T)
      → s'.time ≡ s.time
      → s'.slots ≡ s.slots
      → s'.max_clients ≡ s.max_clients
      → IsFrame i s s'
  IsFrame-refl i s s' et es em = record {
    time = et;
    size = rw es refl;
    max_clients = em;
    others = λ j ne. rw es refl;
  }

  IsFrame-trans :
      (i : ℕ) (s s' s'' : Server T) → IsFrame i s s' → IsFrame i s' s'' → IsFrame i s s''
  IsFrame-trans i s s' s'' f g = record {
    time = g.time ∙ f.time;
    size = g.size ∙ f.size;
    max_clients = g.max_clients ∙ f.max_clients;
    others = λ j ne. g.others j ne ∙ f.others j ne;
  }

  pub IsFrame-modify :
      (i : ℕ) (s s' : Server T) (f : Slot T → Slot T)
      → s'.time ≡ s.time
      → s'.slots ≡ modify s.slots i f
      → s'.max_clients ≡ s.max_clients
      → IsFrame i s s'
  IsFrame-modify i s s' f et es em = record {
    time = et;
    size = rw es (length-modify s.slots i f);
    max_clients = em;
    others = λ j ne. rw es (get_or-modify_ne s.slots i j f (empty_slot T) ne);
  }

  -- The client of slot `i` is gone, and only that slot may differ.
  pub record Vacates (i : ℕ) (s s' : Server T) : Type 0 where
    pub frame : IsFrame i s s'
    pub gone : (slot T s' i).connected ≡ false

  module _ (S : Sodium) where
    send_with_mapping-IsFrame :
        (s : Server T) (packet : Packet) (i e : ℕ) (r : Bool × EncryptionManager T.clock)
        → Returns (IsFrame i s) (send_with_mapping T S s packet i e r)
    unfolding send_with_mapping EncryptionManager.get_send_key
    send_with_mapping-IsFrame s packet i e (false, m) = IsFrame-refl i s _ refl refl refl
    send_with_mapping-IsFrame s packet i e (true, m) =
        Returns-bind (IsFrame i s)
          (packet_bytes T (
            write_packet S packet (slot T s i).sequence
              (EncryptionManager.mapping T.clock m e).send_key s.protocol_id))
          _ λ bytes. IsFrame-modify i s _ _ refl refl refl

    pub send_client_packet-IsFrame :
        (s : Server T) (packet : Packet) (i : ℕ)
        → Returns (IsFrame i s) (send_client_packet T S s packet i)
    unfolding send_client_packet
    send_client_packet-IsFrame s packet i = elim (Option-cases (slot T s i).encryption_index) [
      | inl f ↦ rw (f, Returns) tt
      | inr (e, f) ↦ rw (f, Returns) (send_with_mapping-IsFrame s packet i e _)
    ]

    send_disconnects-IsFrame :
        (n : ℕ) (s : Server T) (i : ℕ) → Returns (IsFrame i s) (send_disconnects T S n s i)
    unfolding send_disconnects
    send_disconnects-IsFrame zero s i = IsFrame-refl i s s refl refl refl
    send_disconnects-IsFrame (suc n) s i =
        Returns-then (IsFrame i s) (IsFrame i s) (send_client_packet T S s disconnect i) _
          (send_client_packet-IsFrame s disconnect i)
          λ s' f.
            Returns-weaken (IsFrame i s') (IsFrame i s) (send_disconnects T S n s' i)
              (send_disconnects-IsFrame n s' i) (λ s'' g. IsFrame-trans i s s' s'' f g)

    clear_client-Vacates :
        (s : Server T) (i : ℕ) → i < length s.slots → Returns (Vacates i s) (clear_client T S s i)
    unfolding clear_client
    clear_client-Vacates s i h = elim (Option-cases (slot T s i).encryption_index) [
      | inl f ↦ rw (f, Returns) tt
      | inr (e, f) ↦
          rw (f, Returns)
            (record {
              frame = IsFrame-modify i s _ _ refl refl refl;
              gone = ap (λ c. c.connected) (get_or-modify_self s.slots i _ (empty_slot T) h);
            })
    ]

    -- `netcode_server_disconnect_client_internal` leaves the slots of the other clients as they are.
    pub disconnect_client_internal-Vacates :
        (s : Server T) (i : ℕ) (b : Bool)
        → i < length s.slots
        → Returns (Vacates i s) (disconnect_client_internal T S s i b)
    unfolding disconnect_client_internal free_queue
    disconnect_client_internal-Vacates s i b h =
        Returns-then (IsFrame i s) (Vacates i s) _ _
          (Returns-if (IsFrame i s) b _ _
            (λ t.
              Returns-weaken (IsFrame i called) (IsFrame i s) (send_disconnects T S 10 called i)
                (send_disconnects-IsFrame 10 called i)
                (λ s' f. IsFrame-trans i s called s' (IsFrame-refl i s called refl refl refl) f))
            (IsFrame-refl i s called refl refl refl))
          λ s' f.
            let freed : Server T = free_queue T S s' i in
            let g : IsFrame i s' freed = IsFrame-modify i s' freed _ refl refl refl in
            let f' : IsFrame i s freed = IsFrame-trans i s s' freed f g in
            Returns-weaken (Vacates i freed) (Vacates i s) (clear_client T S freed i)
              (clear_client-Vacates freed i (omega (arith, f'.size, h)))
              (λ s'' v. record { frame = IsFrame-trans i s freed s'' f' v.frame; gone = v.gone })
      where
        called : Server T
        called = record s { log = connection i false ∷ s.log }
