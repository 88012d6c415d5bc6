-- ===== src/Netcode/Packet/RoundTrip.antt =====
-- Encrypted packets that are written are read back, and fit in a packet buffer.
use yojimbo_cmake.Common.{
  ℕ, suc, ◌+◌, ◌-◌, ◌*◌, ◌/◌, ◌%◌, ◌^◌, ◌<◌, ◌≤◌, ◌≡◌, refl, ◌∙◌, ap, true, false, not, Option,
  some, List, [], ◌∷◌, ◌++◌, le→ltb, lt→leb, ◌==◌, ==_iff, ==_ne, length, length-append, drop,
  append_assoc, arith,
}
use yojimbo_cmake.Common.Results.{ok}
use yojimbo_cmake.Reliable.Bytes
use yojimbo_cmake.Reliable.Bytes.{read_uint32_lem, read_uint64_lem}
use yojimbo_cmake.Netcode.Bytes.{write_uint32, write_uint64, write_array, read_array}
use yojimbo_cmake.Netcode.Replay.{ReplayProtection}
use yojimbo_cmake.Netcode.Crypto.{Sodium, IsAead, sealed_lem, decrypt_aead, mac_bytes}
use yojimbo_cmake.Netcode.Token.{challenge_token_bytes}
use yojimbo_cmake.Netcode.Token.Challenge.{nonce_of}
use yojimbo_cmake.Netcode.Token.Servers.{region-all}
use yojimbo_cmake.Netcode.Packet.{
  Packet, request, denied, challenge, response, keep_alive, payload, disconnect, packet_type,
  max_packet_bytes,
}
use yojimbo_cmake.Netcode.Packet.Sequence.{
  sequence_number_bytes_required, write_sequence, sequence_number_bytes_required_lem,
  length-write_sequence, read_sequence_lem,
}
use yojimbo_cmake.Netcode.Packet.Write.{
  write_body, prefix_byte_of, associated_data, write_encrypted, write_packet,
}
use yojimbo_cmake.Netcode.Packet.Read.{
  Context, read_body, is_replay, noted, open_encrypted, receive_opened, read_by_prefix, read_packet,
}

-- A packet that is encrypted, with arrays of the right size and a payload that may be sent.
abbrev pub IsValid : Packet → Type 0
IsValid (request version protocol_id expire_timestamp nonce token) = ⊥
IsValid denied = Unit
IsValid (challenge sequence token) = length token ≡ challenge_token_bytes
IsValid (response sequence token) = length token ≡ challenge_token_bytes
IsValid (keep_alive client_index max_clients) = Unit
IsValid (payload bytes) = (1 ≤ length bytes) × (length bytes ≤ 1200)
IsValid disconnect = Unit

body : Packet → List ℕ
body (request version protocol_id expire_timestamp nonce token) = []
body denied = []
body (challenge sequence token) = write_uint64 sequence ++ token
body (response sequence token) = write_uint64 sequence ++ token
body (keep_alive client_index max_clients) = write_uint32 client_index ++ write_uint32 max_clients
body (payload bytes) = bytes
body disconnect = []

write_body_lem : (p : Packet) → IsValid p → write_body p ≡ ok (body p)
unfolding write_body body
write_body_lem (request version protocol_id expire_timestamp nonce token) v = absurd v
write_body_lem denied v = refl
write_body_lem (challenge sequence token) v = rw (write_array challenge_token_bytes token v) refl
write_body_lem (response sequence token) v = rw (write_array challenge_token_bytes token v) refl
write_body_lem (keep_alive client_index max_clients) v = refl
write_body_lem (payload bytes) v = write_array (length bytes) bytes refl
write_body_lem disconnect v = refl

length-body : (p : Packet) → IsValid p → length (body p) ≤ 1200
unfolding body Bytes.write_uint64 Bytes.write_uint32
length-body (request version protocol_id expire_timestamp nonce token) v = absurd v
length-body denied v = omega arith
length-body (challenge sequence token) v = omega (arith, v)
length-body (response sequence token) v = omega (arith, v)
length-body (keep_alive client_index max_clients) v = omega arith
length-body (payload bytes) v = v.1
length-body disconnect v = omega arith

same_size : (n m : ℕ) → n ≡ m → not (n == m) ≡ false
same_size n m h = rw ((==_iff n m).1 h) refl

token_size : (s : ℕ) (token : List ℕ) → length token ≡ 300 → length (write_uint64 s ++ token) ≡ 308
unfolding Bytes.write_uint64
token_size s token h = omega (arith, h)

keep_alive_size : (i n : ℕ) → length (write_uint32 i ++ write_uint32 n) ≡ 8
unfolding Bytes.write_uint32
keep_alive_size i n = refl

read_payload :
    (bytes rest : List ℕ)
    → 1 ≤ length bytes
    → length bytes ≤ 1200
    → read_body 5 (bytes ++ rest) (length bytes) ≡ ok (payload bytes)
unfolding read_body
read_payload bytes rest h k =
    rw
      (
        le→ltb (length bytes) 1 h,
        le→ltb 1200 (length bytes) k,
        read_array (length bytes) bytes rest refl,
      )
      refl

read_body_lem :
    (p : Packet) (rest : List ℕ)
    → IsValid p
    → read_body (packet_type p) (body p ++ rest) (length (body p)) ≡ ok p
unfolding read_body body
read_body_lem (request version protocol_id expire_timestamp nonce token) rest v = absurd v
read_body_lem denied rest v = refl
read_body_lem (challenge sequence token) rest v = simp (
  append_assoc,
  token_size sequence token v,
  read_uint64_lem,
  read_array challenge_token_bytes token rest v,
)
read_body_lem (response sequence token) rest v = simp (
  append_assoc,
  token_size sequence token v,
  read_uint64_lem,
  read_array challenge_token_bytes token rest v,
)
read_body_lem (keep_alive client_index max_clients) rest v =
    simp (append_assoc, keep_alive_size client_index max_clients, read_uint32_lem)
read_body_lem (payload bytes) rest v = read_payload bytes rest v.0 v.1
read_body_lem disconnect rest v = refl

prefix_type : (t n : ℕ) → t ≤ 6 → (t + n * 16) % 16 ≡ t
prefix_type t n h = omega (arith, h)

prefix_bytes : (t n : ℕ) → t ≤ 6 → (t + n * 16) / 16 ≡ n
prefix_bytes t n h = omega (arith, h)

module _ (S : Sodium) (context : Context) (key : List ℕ)
    (keyed : context.read_packet_key ≡ some key) where
  open_lem :
      (t n s : ℕ) (m c : List ℕ) (replay : Option ReplayProtection)
      → t ≤ 6
      → (1 ≤ n) × (n ≤ 8) × (s < 256 ^ n)
      → context.allowed_packets t ≡ true
      → is_replay t s replay ≡ false
      → length c ≡ length m + mac_bytes
      → decrypt_aead S c (associated_data context.protocol_id (prefix_byte_of t n)) (nonce_of s) key
        ≡ ok (m ++ drop (length m) c)
      → open_encrypted S context
          (write_sequence n s ++ c)
          (suc (n + length c))
          (prefix_byte_of t n)
          replay
        ≡ ok (s, m ++ drop (length m) c, length m)
  unfolding open_encrypted
  open_lem t n s m c replay small (pos, few, below) allowed fresh longer opens =
      rw
        (
          keyed,
          prefix_type t n small,
          prefix_bytes t n small,
          allowed,
          le→ltb (suc (n + length c)) 18 (omega arith),
          lt→leb 7 t (omega arith),
          le→ltb n 1 pos,
          le→ltb 8 n few,
          le→ltb (suc (n + length c)) (1 + n + 16) (omega arith),
          read_sequence_lem n s c below,
          fresh,
          rest_size,
          le→ltb (length c) 16 (omega arith),
          region-all (length c) c refl,
          opens,
        )
        (ap (λ k. ok (s, m ++ drop (length m) c, k)) (omega arith))
    where
      rest_size : suc (n + length c) - (1 + n) ≡ length c
      rest_size = omega arith

type_below : (p : Packet) → packet_type p ≤ 6
type_below (request version protocol_id expire_timestamp nonce token) = omega arith
type_below denied = omega arith
type_below (challenge sequence token) = omega arith
type_below (response sequence token) = omega arith
type_below (keep_alive client_index max_clients) = omega arith
type_below (payload bytes) = omega arith
type_below disconnect = omega arith

write_packet_lem :
    (S : Sodium) (p : Packet) (sequence : ℕ) (key : List ℕ) (protocol_id : ℕ)
    → IsValid p
    → write_packet S p sequence key protocol_id ≡ write_encrypted S p sequence key protocol_id
unfolding write_packet
write_packet_lem S (request version id expire_timestamp nonce token) sequence key protocol_id v =
    absurd v
write_packet_lem S denied sequence key protocol_id v = refl
write_packet_lem S (challenge s token) sequence key protocol_id v = refl
write_packet_lem S (response s token) sequence key protocol_id v = refl
write_packet_lem S (keep_alive client_index max_clients) sequence key protocol_id v = refl
write_packet_lem S (payload bytes) sequence key protocol_id v = refl
write_packet_lem S disconnect sequence key protocol_id v = refl

read_by_prefix_lem :
    (S : Sodium) (context : Context) (p : Packet) (rest bytes : List ℕ) (n s size : ℕ)
    (replay : Option ReplayProtection)
    → IsValid p
    → 1 ≤ n
    → open_encrypted S context bytes size (prefix_byte_of (packet_type p) n) replay
      ≡ ok (s, body p ++ rest, length (body p))
    → read_by_prefix S context (prefix_byte_of (packet_type p) n) bytes size replay
      ≡ (ok (p, s), noted (packet_type p) s replay)
unfolding read_by_prefix receive_opened
read_by_prefix_lem S context p rest bytes n s size replay v pos opens =
    rw
      (
        (==_ne (prefix_byte_of (packet_type p) n) 0).1 (omega arith),
        opens,
        prefix_type (packet_type p) n (type_below p),
        read_body_lem p rest v,
      )
      refl

-- A packet other than a connection request, with arrays of the right size and a payload of 1 to 1200
-- bytes, is written in at most 1300 bytes. A reader with the same key and protocol that allows
-- packets of its type, and whose replay protection does not refuse the sequence number, gets the
-- packet and its sequence number from those bytes, and the number is noted.
pub packet_lem :
    (S : Sodium) (context : Context) (p : Packet) (sequence : ℕ) (key : List ℕ)
    (replay : Option ReplayProtection)
    → IsAead S.encrypt S.decrypt
    → IsValid p
    → sequence < 2 ^ 64
    → context.read_packet_key ≡ some key
    → context.allowed_packets (packet_type p) ≡ true
    → is_replay (packet_type p) sequence replay ≡ false
    → (bytes : List ℕ) × (write_packet S p sequence key context.protocol_id ≡ ok bytes)
      × (length bytes ≤ max_packet_bytes)
      × (read_packet S context bytes (length bytes) replay
          ≡ (ok (p, sequence), noted (packet_type p) sequence replay))
unfolding write_encrypted read_packet Bytes.write_uint8
packet_lem S context p sequence key replay sound v below keyed allowed fresh =
    let n : ℕ = sequence_number_bytes_required sequence in
    let (pos, few, fits, least) = sequence_number_bytes_required_lem sequence below in
    let prefix_byte : ℕ = prefix_byte_of (packet_type p) n in
    let (c, s) =
      sealed_lem S (body p) (associated_data context.protocol_id prefix_byte) (nonce_of sequence)
        key sound in
    let size : length (write_sequence n sequence ++ c) ≡ n + length c =
      length-append (write_sequence n sequence) c
      ∙ ap (λ k. k + length c) (length-write_sequence n sequence) in
    (
      prefix_byte ∷ (write_sequence n sequence ++ c),
      write_packet_lem S p sequence key context.protocol_id v
          ∙ rw (write_body_lem p v, s.encrypts) refl,
      omega (arith, size, s.longer, length-body p v, few),
      rw (size, le→ltb (suc (n + length c)) 1 (omega arith))
          (read_by_prefix_lem S context p (drop (length (body p)) c)
            (write_sequence n sequence ++ c) n sequence (suc (n + length c)) replay v pos
            (open_lem S context key keyed (packet_type p) n sequence (body p) c replay
              (type_below p) (pos, few, fits) allowed fresh s.longer s.decrypts)),
    )
