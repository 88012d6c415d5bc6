-- ===== src/Netcode/Server/Sound.antt =====
-- netcode/netcode.c: what the slots of a server are to keep: the count of clients, and that clients
-- have their own ids and addresses.
pub mod Changes
pub mod Sending
pub mod Rounds
pub mod Joining
pub mod Requests
pub mod Receiving
pub mod Updating
use yojimbo_cmake.Common.{
  ℕ, zero, suc, ◌+◌, ◌-◌, ◌≤◌, ◌<◌, ◌≡◌, ◌≢◌, refl, sym, ◌∙◌, true, false, not, ◌⊎◌, some, List, [],
  ◌∷◌, ◌==◌, if◌then◌else◌, length, get_or, modify, length-modify, modify-keeps,
}
use yojimbo_cmake.Netcode.Address.{address_equal, is_none}
use yojimbo_cmake.Netcode.PacketQueue.Fifo
use yojimbo_cmake.Netcode.Client.{Timer}
use yojimbo_cmake.Netcode.Server.{Slot, Server, empty_slot, slot}

module _ (T : Timer) where
  -- The number of slots in use among the first ones.
  abbrev pub num_connected : ℕ → List (Slot T) → ℕ
  num_connected zero slots = 0
  num_connected (suc n) [] = 0
  num_connected (suc n) (c ∷ slots) = (if c.connected then 1 else 0) + num_connected n slots

  -- The two are not in use by the same client.
  abbrev pub Apart : Slot T → Slot T → Type 0
  Apart c d =
      c.connected ≡ true
      → d.connected ≡ true
      → ((c.client_id == d.client_id) ≡ false) × (address_equal c.address d.address ≡ false)

  -- A client that is not a loopback one has an encryption index, and the replay protection has 256
  -- entries.
  pub record SlotIsSound (c : Slot T) : Type 0 where
    pub indexed :
        c.connected ≡ true
        → ((e : ℕ) × (c.encryption_index ≡ some e))
          ⊎ ((c.loopback ≡ true) × (is_none c.address ≡ true))
    pub replay_size : length c.replay_protection.received_packet ≡ 256
    pub queue : Fifo.IsValid c.packet_queue

  -- `n` slots of the 256 are open to clients, `num` of which are in use.
  pub record SlotsAreSound (n num : ℕ) (slots : List (Slot T)) : Type 0 where
    pub size : length slots ≡ 256
    pub open_size : n ≤ 256
    pub counted : num ≡ num_connected n slots
    pub each : (i : ℕ) → SlotIsSound (get_or slots i (empty_slot T))
    pub apart :
        (i j : ℕ)
        → i < n
        → j < n
        → i ≢ j
        → Apart (get_or slots i (empty_slot T)) (get_or slots j (empty_slot T))

  pub record IsSound (n : ℕ) (s : Server T) : Type 0 where
    pub slots : SlotsAreSound n s.num_connected_clients s.slots
    pub open_slots : s.max_clients ≡ n

  -- The slot is in use by the same client, or not in use.
  pub record IsLike (c d : Slot T) : Type 0 where
    pub connected : c.connected ≡ d.connected
    pub client_id : c.client_id ≡ d.client_id
    pub address : c.address ≡ d.address
    pub encryption_index : c.encryption_index ≡ d.encryption_index

  IsLike-refl : (c : Slot T) → IsLike c c
  IsLike-refl c = record {
    connected = refl;
    client_id = refl;
    address = refl;
    encryption_index = refl;
  }

  pub modify-IsLike :
      (xs : List (Slot T)) (i j : ℕ) (f : Slot T → Slot T)
      → ((c : Slot T) → IsLike (f c) c)
      → IsLike (get_or (modify xs i f) j (empty_slot T)) (get_or xs j (empty_slot T))
  modify-IsLike [] i j f k = IsLike-refl _
  modify-IsLike (x ∷ xs) zero zero f k = k x
  modify-IsLike (x ∷ xs) zero (suc j) f k = IsLike-refl _
  modify-IsLike (x ∷ xs) (suc i) zero f k = IsLike-refl _
  modify-IsLike (x ∷ xs) (suc i) (suc j) f k = modify-IsLike xs i j f k

  Apart-like : (c d c' d' : Slot T) → IsLike c' c → IsLike d' d → Apart c d → Apart c' d'
  Apart-like c d c' d' l m h =
      rw (l.connected, m.connected, l.client_id, m.client_id, l.address, m.address) h

  num_connected-like :
      (n : ℕ) (xs : List (Slot T)) (i : ℕ) (f : Slot T → Slot T)
      → ((c : Slot T) → IsLike (f c) c)
      → num_connected n (modify xs i f) ≡ num_connected n xs
  num_connected-like zero xs i f k = refl
  num_connected-like (suc n) [] i f k = refl
  num_connected-like (suc n) (c ∷ xs) zero f k = rw ((k c).connected) refl
  num_connected-like (suc n) (c ∷ xs) (suc i) f k = rw (num_connected-like n xs i f k) refl

  -- A change that leaves the client of a slot as it is.
  pub modify-quiet :
      (n num : ℕ) (xs : List (Slot T)) (i : ℕ) (f : Slot T → Slot T)
      → SlotsAreSound n num xs
      → ((c : Slot T) → IsLike (f c) c)
      → ((c : Slot T) → SlotIsSound c → SlotIsSound (f c))
      → SlotsAreSound n num (modify xs i f)
  modify-quiet n num xs i f v like k = record {
    size = length-modify xs i f ∙ v.size;
    open_size = v.open_size;
    counted = v.counted ∙ sym (num_connected-like n xs i f like);
    each = λ j. modify-keeps SlotIsSound xs i j f (empty_slot T) k (v.each j);
    apart = λ j j' h h' ne.
        Apart-like _ _ _ _ (modify-IsLike xs i j f like) (modify-IsLike xs i j' f like)
          (v.apart j j' h h' ne);
  }
