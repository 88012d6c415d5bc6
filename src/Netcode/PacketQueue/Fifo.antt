-- ===== src/Netcode/PacketQueue/Fifo.antt =====
-- The packet queue behaves as a first-in first-out list of at most 256 packets, but for what
-- clearing it frees.
use yojimbo_cmake.Common.{
  ℕ, zero, suc, ◌+◌, ◌-◌, ◌%◌, ◌<◌, ◌≤◌, ◌≡◌, refl, sym, ◌∙◌, ap, true, false, Bool-cases, inl, inr,
  Option, none, some, List, [], ◌∷◌, ◌++◌, map, ◌==◌, ==_iff, ==_ne, if◌then◌else◌, length, get_or,
  set, take, drop, length-set, take-drop_cons, length-replicate, get_or-set_self, get_or-set_ne,
  arith,
}
use yojimbo_cmake.Netcode.PacketQueue.{PacketQueue, init, clear, push, pop}

pub record IsValid (q : PacketQueue) : Type 0 where
  pub data_size : length q.packet_data ≡ 256
  pub sequence_size : length q.packet_sequence ≡ 256
  pub start_in : q.start_index < 256
  pub num_in : q.num_packets ≤ 256

pub init-IsValid : IsValid init
unfolding init
init-IsValid = record {
  data_size = length-replicate {A = ℕ} 256 0;
  sequence_size = length-replicate {A = ℕ} 256 0;
  start_in = omega arith;
  num_in = omega arith;
}

-- `n` packets of the arrays, from place `i` on, going round.
abbrev places : List ℕ → List ℕ → ℕ → ℕ → List (ℕ × ℕ)
places d s i zero = []
places d s i (suc n) = (get_or d (i % 256) 0, get_or s (i % 256) 0) ∷ places d s (i + 1) n

-- The packets in the queue with their sequence numbers, the oldest first.
abbrev pub contents : PacketQueue → List (ℕ × ℕ)
contents q = places q.packet_data q.packet_sequence q.start_index q.num_packets

-- The specification: a list that takes at most 256 packets.
abbrev pub fifo_push : List (ℕ × ℕ) → ℕ × ℕ → List (ℕ × ℕ)
fifo_push l p = if length l == 256 then l else l ++ (p ∷ [])

abbrev pub fifo_pop : List (ℕ × ℕ) → Option (ℕ × ℕ) × List (ℕ × ℕ)
fifo_pop [] = (none, [])
fifo_pop (p ∷ l) = (some p, l)

length-places : (d s : List ℕ) (i n : ℕ) → length (places d s i n) ≡ n
length-places d s i zero = refl
length-places d s i (suc n) = ap suc (length-places d s (i + 1) n)

-- Only the place modulo 256 counts.
places-mod : (d s : List ℕ) (n i j : ℕ) → i % 256 ≡ j % 256 → places d s i n ≡ places d s j n
places-mod d s zero i j h = refl
places-mod d s (suc n) i j h = rw (h, places-mod d s n (i + 1) (j + 1) (omega arith)) refl

-- A packet put behind `n` others shows as the last of them.
places-set :
    (d s : List ℕ) (p x n i k : ℕ)
    → length d ≡ 256
    → length s ≡ 256
    → n < 256
    → k ≡ (i + n) % 256
    → places (set d k p) (set s k x) i (suc n) ≡ places d s i n ++ ((p, x) ∷ [])
places-set d s p x zero i k hd hs hn e =
    rw (← here, get_or-set_self d k p 0 (omega arith), get_or-set_self s k x 0 (omega arith)) refl
  where
    here : k ≡ i % 256
    here = omega arith
places-set d s p x (suc n) i k hd hs hn e =
    rw
      (
        get_or-set_ne d k (i % 256) p 0 (omega arith),
        get_or-set_ne s k (i % 256) x 0 (omega arith),
        places-set d s p x n (i + 1) k hd hs (omega arith) (omega arith),
      )
      refl

-- `netcode_packet_queue_push` on a valid queue: it refuses and frees the packet exactly when there
-- are 256, and otherwise the packet comes last; the queue stays valid.
pub push-refines :
    (q : PacketQueue) (p x : ℕ)
    → IsValid q
    → let (taken, q', freed) = push q p x in
      (contents q' ≡ fifo_push (contents q) (p, x))
      × (taken ≡ (if q.num_packets == 256 then false else true))
      × (freed ≡ (if q.num_packets == 256 then p ∷ [] else []))
      × IsValid q'
unfolding push
push-refines q p x v = elim (Bool-cases (q.num_packets == 256)) [
  | inl full ↦ rw (full, length-contents q, full) (refl, refl, refl, v)
  | inr free ↦
      rw (free, length-contents q, free)
        (
          ap (λ n. places (set q.packet_data k p) (set q.packet_sequence k x) q.start_index n) next
              ∙ places-set q.packet_data q.packet_sequence p x q.num_packets q.start_index k
                  v.data_size v.sequence_size (below free) refl,
          refl,
          refl,
          record {
            data_size = length-set q.packet_data k p ∙ v.data_size;
            sequence_size = length-set q.packet_sequence k x ∙ v.sequence_size;
            start_in = v.start_in;
            num_in = room free;
          },
        )
]
  where
    k : ℕ
    k = (q.start_index + q.num_packets) % 256

    next : q.num_packets + 1 ≡ suc q.num_packets
    next = omega arith

    room : (q.num_packets == 256) ≡ false → q.num_packets + 1 ≤ 256
    room free = omega (arith, (==_ne q.num_packets 256).0 free, v.num_in)

    below : (q.num_packets == 256) ≡ false → q.num_packets < 256
    below free = omega (arith, room free)

    length-contents : (q : PacketQueue) → length (contents q) ≡ q.num_packets
    length-contents q = length-places q.packet_data q.packet_sequence q.start_index q.num_packets

pop_places :
    (d s : List ℕ) (i n : ℕ)
    → i < 256
    → fifo_pop (places d s i n) ≡ (
        if n == 0
        then (none, [])
        else (some (get_or d i 0, get_or s i 0), places d s ((i + 1) % 256) (n - 1)))
pop_places d s i zero h = refl
pop_places d s i (suc n) h =
    rw (some_left, at_front, places-mod d s n (i + 1) ((i + 1) % 256) (omega arith), rest_left) refl
  where
    some_left : (suc n == 0) ≡ false
    some_left = (==_ne (suc n) 0).1 (omega arith)

    at_front : i % 256 ≡ i
    at_front = omega arith

    rest_left : suc n - 1 ≡ n
    rest_left = omega arith

-- `netcode_packet_queue_pop` on a valid queue takes the oldest packet, or says NULL when there is
-- none; the queue stays valid.
pub pop-refines :
    (q : PacketQueue)
    → IsValid q
    → let (out, q') = pop q in ((out, contents q') ≡ fifo_pop (contents q)) × IsValid q'
unfolding pop
pop-refines q v =
    rw (pop_places q.packet_data q.packet_sequence q.start_index q.num_packets v.start_in)
      (elim (Bool-cases (q.num_packets == 0)) [
        | inl e ↦ rw (e, none_left e) (refl, v)
        | inr e ↦ rw e (
          refl,
          record {
            data_size = v.data_size;
            sequence_size = v.sequence_size;
            start_in = omega arith;
            num_in = omega (arith, v.num_in);
          },
        )
      ])
  where
    none_left :
        (q.num_packets == 0) ≡ true
        → places q.packet_data q.packet_sequence q.start_index q.num_packets ≡ []
    none_left e =
        ap (λ n. places q.packet_data q.packet_sequence q.start_index n)
          ((==_iff q.num_packets 0).0 e)

-- Places that do not go round are a stretch of the array.
take-places :
    (d s : List ℕ) (n i : ℕ)
    → length d ≡ 256
    → i + n ≤ 256
    → take n (drop i d) ≡ map (λ p. p.0) (places d s i n)
take-places d s zero i hd h = refl
take-places d s (suc n) i hd h =
    take-drop_cons d i n 0 (omega arith)
    ∙ rw (at_place, next) (ap (λ l. get_or d i 0 ∷ l) (take-places d s n (suc i) hd (omega arith)))
  where
    at_place : i % 256 ≡ i
    at_place = omega arith

    next : i + 1 ≡ suc i
    next = omega arith

-- `netcode_packet_queue_clear` frees the packets of the queue if the oldest stands in the first
-- place of the array, and leaves an empty queue.
pub clear-refines :
    (q : PacketQueue)
    → IsValid q
    → q.start_index ≡ 0
    → let (q', freed) = clear q in
      (freed ≡ map (λ p. p.0) (contents q)) × (contents q' ≡ []) × IsValid q'
unfolding clear init
clear-refines q v e = (
  rw e (
      take-places q.packet_data q.packet_sequence q.num_packets 0 v.data_size
        (omega (arith, v.num_in))),
  refl,
  init-IsValid,
)

-- It does not once a packet has been taken out: of two packets or more in such a queue, the first
-- is taken out by `pop`, and then clearing frees it, which is no longer in the queue.
pub clear_frees_popped :
    (q : PacketQueue) (p x : ℕ) (next : ℕ × ℕ) (rest : List (ℕ × ℕ))
    → IsValid q
    → q.start_index ≡ 0
    → contents q ≡ (p, x) ∷ (next ∷ rest)
    → ((pop q).0 ≡ some (p, x))
      × (contents (pop q).1 ≡ next ∷ rest)
      × ((clear (pop q).1).1 ≡ p ∷ take (length rest) (drop 1 q.packet_data))
unfolding pop clear
clear_frees_popped q p x next rest v e c = (
  ap (λ r. r.0) popped,
  ap (λ r. r.1) popped,
  rw some_left (
      ap (λ n. take n q.packet_data) left
      ∙ take-drop_cons q.packet_data 0 (length rest) 0 (omega (arith, v.data_size))
      ∙ ap (λ y. y ∷ take (length rest) (drop 1 q.packet_data)) first),
)
  where
    num : q.num_packets ≡ suc (suc (length rest))
    num =
        sym (length-places q.packet_data q.packet_sequence q.start_index q.num_packets)
        ∙ ap length c

    some_left : (q.num_packets == 0) ≡ false
    some_left = (==_ne q.num_packets 0).1 (omega (arith, num))

    left : q.num_packets - 1 ≡ suc (length rest)
    left = omega (arith, num)

    popped :
        Path
          (Option (ℕ × ℕ) × List (ℕ × ℕ))
          ((pop q).0, contents (pop q).1)
          (some (p, x), next ∷ rest)
    popped = (pop-refines q v).0 ∙ ap fifo_pop c

    first : get_or q.packet_data 0 0 ≡ p
    first =
        ap (λ i. get_or q.packet_data (i % 256) 0) (sym e)
        ∙ ap (λ l. get_or (map (λ y. y.0) l) 0 0)
            (sym (ap (places q.packet_data q.packet_sequence q.start_index) num) ∙ c)

-- A queue that was cleared is valid, whatever it was before.
pub clear-IsValid : (q : PacketQueue) → IsValid (clear q).0
unfolding clear
clear-IsValid q = init-IsValid
