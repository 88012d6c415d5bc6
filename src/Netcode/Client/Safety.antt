-- ===== src/Netcode/Client/Safety.antt =====
-- An update of the client on whatever packets arrive: what it does with them.
pub mod Updating
use yojimbo_cmake.Common.{
  ℕ, suc, ◌+◌, ◌≤◌, ◌≡◌, refl, Bool, true, false, ◌&&◌, ◌||◌, Option, none, some, List, [], ◌∷◌,
  ◌++◌, if◌then◌else◌, length, arith,
}
use yojimbo_cmake.Common.Results.{Result, ok, invalid, fault, Safe, Yields, Yields-bind}
use yojimbo_cmake.Netcode.Address.{Address, address_equal}
use yojimbo_cmake.Netcode.Replay.{ReplayProtection}
use yojimbo_cmake.Netcode.Replay.Accepted.{reset-IsValid}
use yojimbo_cmake.Netcode.PacketQueue.Fifo
use yojimbo_cmake.Netcode.PacketQueue.Fifo.{push-refines}
use yojimbo_cmake.Netcode.Crypto.{Sodium, IsAead}
use yojimbo_cmake.Netcode.Token.{max_servers_per_connect}
use yojimbo_cmake.Netcode.Packet.{
  Packet, request, denied, challenge, response, keep_alive, payload, disconnect,
}
use yojimbo_cmake.Netcode.Packet.Read.{Context, read_packet}
use yojimbo_cmake.Netcode.Packet.Safety.{IsSized, PacketIsSized, read_packet-Safe}
use yojimbo_cmake.Netcode.Packet.Total.{HasSize, read_packet-HasSize}
use yojimbo_cmake.Netcode.Client.{
  sending_connection_request, sending_connection_response, connected, Timer, Client,
}
use yojimbo_cmake.Netcode.Client.Connect
use yojimbo_cmake.Netcode.Client.Connect.{Time}
use yojimbo_cmake.Netcode.Client.Receive.{
  is_in, handle_packet, process_packet_internal, client_context, process_read, process_packet,
  receive_simulated, receive_until_empty,
}

module _ (T : Timer) where
  -- The arrays of a client have the sizes of those of its struct, its queue is valid, and its token
  -- has at most as many addresses as the array for them has places.
  pub record IsSound (c : Client (Time T)) : Type 0 where
    pub nonce_size : length c.connect_token.nonce ≡ 24
    pub private_size : length c.connect_token.private_data ≡ 1024
    pub challenge_size : length c.challenge_token_data ≡ 300
    pub replay_size : length c.replay_protection.received_packet ≡ 256
    pub queue : Fifo.IsValid c.packet_receive_queue
    pub addresses : length c.connect_token.server_addresses ≤ max_servers_per_connect

  -- A new client is one.
  pub create-IsSound :
      (has_simulator overrides : Bool) (address : Address) (time : Time T)
      → IsSound (Connect.create T has_simulator overrides address time)
  unfolding Connect.create
  create-IsSound has_simulator overrides address time = record {
    nonce_size = refl;
    private_size = refl;
    challenge_size = refl;
    replay_size = reset-IsValid.size;
    queue = Fifo.init-IsValid;
    addresses = omega arith;
  }

  record FirstIsSound (x : Client (Time T) × List ℕ) : Type 0 where
    first : IsSound x.0

  IsSound-if :
      (b : Bool) (x y : Client (Time T) × List ℕ)
      → FirstIsSound x
      → FirstIsSound y
      → FirstIsSound (if b then x else y)
  IsSound-if true x y h k = h
  IsSound-if false x y h k = k

  -- Only these fields count.
  abbrev pub same :
      (c c' : Client (Time T))
      → IsSound c
      → c'.connect_token ≡ c.connect_token
      → c'.challenge_token_data ≡ c.challenge_token_data
      → c'.replay_protection ≡ c.replay_protection
      → c'.packet_receive_queue ≡ c.packet_receive_queue
      → IsSound c'
  same c c' v e f g h = record {
    nonce_size = rw e v.nonce_size;
    private_size = rw e v.private_size;
    challenge_size = rw f v.challenge_size;
    replay_size = rw g v.replay_size;
    queue = rw h v.queue;
    addresses = rw e v.addresses;
  }

  keep :
      (c c' : Client (Time T)) (ps : List ℕ)
      → IsSound c
      → c'.connect_token ≡ c.connect_token
      → c'.challenge_token_data ≡ c.challenge_token_data
      → c'.replay_protection ≡ c.replay_protection
      → c'.packet_receive_queue ≡ c.packet_receive_queue
      → FirstIsSound (c', ps)
  keep c c' ps v e f g h = record { first = same c c' v e f g h }

  handle_packet-IsSound :
      (c : Client (Time T)) (from : Address) (packet : Packet) (p sequence : ℕ)
      → IsSound c
      → IsSized packet
      → FirstIsSound (handle_packet T c from packet p sequence)
  unfolding handle_packet Connect.set_state
  handle_packet-IsSound c from (request version id expire nonce token) p sequence v h = record {
    first = v;
  }
  handle_packet-IsSound c from denied p sequence v h =
      IsSound-if
        ((is_in c sending_connection_request || is_in c sending_connection_response)
          && address_equal from c.server_address)
        _ _ (keep c _ _ v refl refl refl refl) (record { first = v })
  handle_packet-IsSound c from (challenge k token) p sequence v h =
      IsSound-if (is_in c sending_connection_request && address_equal from c.server_address) _ _
        (record {
          first = record {
            nonce_size = v.nonce_size;
            private_size = v.private_size;
            challenge_size = h;
            replay_size = v.replay_size;
            queue = v.queue;
            addresses = v.addresses;
          };
        })
        (record { first = v })
  handle_packet-IsSound c from (response k token) p sequence v h = record { first = v }
  handle_packet-IsSound c from (keep_alive i n) p sequence v h =
      IsSound-if (address_equal from c.server_address) _ _
        (IsSound-if (is_in c connected) _ _ (keep c _ _ v refl refl refl refl) (
          IsSound-if (is_in c sending_connection_response) _ _ (keep c _ _ v refl refl refl refl)
            (record { first = v })))
        (record { first = v })
  handle_packet-IsSound c from (payload bytes) p sequence v h =
      IsSound-if (is_in c connected && address_equal from c.server_address) _ _
        (record {
          first = record {
            nonce_size = v.nonce_size;
            private_size = v.private_size;
            challenge_size = v.challenge_size;
            replay_size = v.replay_size;
            queue = (push-refines c.packet_receive_queue p sequence v.queue).3;
            addresses = v.addresses;
          };
        })
        (record { first = v })
  handle_packet-IsSound c from disconnect p sequence v h =
      IsSound-if (is_in c connected && address_equal from c.server_address) _ _
        (keep c _ _ v refl refl refl refl) (record { first = v })

  module _ (S : Sodium) (sound : IsAead S.encrypt S.decrypt)
      (sound' : IsAead S.encrypt_bignonce S.decrypt_bignonce) where
    process_read-Yields :
        (context : Context) (c : Client (Time T)) (from : Address)
        (r : Result (Packet × ℕ) × Option ReplayProtection)
        → IsSound c
        → Safe (PacketIsSized S context) r.0
        → HasSize r.1
        → Yields IsSound (process_read T c from r)
    unfolding process_read process_packet_internal
    process_read-Yields context c from (r, none) v h size = size
    process_read-Yields context c from (fault, some replay) v h size = h
    process_read-Yields context c from (invalid, some replay) v h size = record {
      nonce_size = v.nonce_size;
      private_size = v.private_size;
      challenge_size = v.challenge_size;
      replay_size = size;
      queue = v.queue;
      addresses = v.addresses;
    }
    process_read-Yields context c from (ok (packet, sequence), some replay) v h size =
        same _ _
          (handle_packet-IsSound
            (record c { replay_protection = replay; memory = c.memory ++ (packet ∷ []) }) from
            packet (suc (length c.memory)) sequence
            (record {
              nonce_size = v.nonce_size;
              private_size = v.private_size;
              challenge_size = v.challenge_size;
              replay_size = size;
              queue = v.queue;
              addresses = v.addresses;
            })
            h).first
          refl refl refl refl

    module _ (now : ℕ) where
      process_packet-Yields :
          (c : Client (Time T)) (from : Address) (bytes : List ℕ)
          → IsSound c
          → Yields IsSound (process_packet T S now c from bytes)
      unfolding process_packet
      process_packet-Yields c from bytes v =
          process_read-Yields (client_context T c now) c from _ v
            (read_packet-Safe S (client_context T c now) sound sound' bytes (length bytes)
              (some c.replay_protection) (omega arith))
            (read_packet-HasSize S (client_context T c now) c.replay_protection v.replay_size bytes
              (length bytes))

      pub receive_simulated-Yields :
          (c : Client (Time T)) (arriving : List (Address × List ℕ))
          → IsSound c
          → Yields IsSound (receive_simulated T S now c arriving)
      unfolding receive_simulated
      receive_simulated-Yields c [] v = v
      receive_simulated-Yields c ((from, bytes) ∷ rest) v =
          Yields-bind IsSound IsSound (process_packet T S now c from bytes) _
            (process_packet-Yields c from bytes v) (λ c' v'. receive_simulated-Yields c' rest v')

      pub receive_until_empty-Yields :
          (c : Client (Time T)) (arriving : List (Address × List ℕ))
          → IsSound c
          → Yields IsSound (receive_until_empty T S now c arriving)
      unfolding receive_until_empty
      receive_until_empty-Yields c [] v = v
      receive_until_empty-Yields c ((from, []) ∷ rest) v = v
      receive_until_empty-Yields c ((from, b ∷ bytes) ∷ rest) v =
          Yields-bind IsSound IsSound (process_packet T S now c from (b ∷ bytes)) _
            (process_packet-Yields c from (b ∷ bytes) v)
            (λ c' v'. receive_until_empty-Yields c' rest v')
