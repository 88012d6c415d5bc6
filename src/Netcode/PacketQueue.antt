-- ===== src/Netcode/PacketQueue.antt =====
-- netcode/netcode.c: the queue of received packets. A packet is the address of its memory, with 0
-- for NULL; the operations return the packets that they free.
pub mod Fifo
mod Tests
use yojimbo_cmake.Common.{
  ℕ, zero, suc, ◌+◌, ◌-◌, ◌%◌, Bool, true, false, Option, none, some, List, [], ◌∷◌, ◌==◌,
  if◌then◌else◌, get_or, set, take, replicate,
}

abbrev pub packet_queue_size : ℕ
packet_queue_size = 256

-- `struct netcode_packet_queue_t`, without the allocator.
pub record PacketQueue : Type 0 where
  pub num_packets : ℕ
  pub start_index : ℕ
  pub packet_data : List ℕ
  pub packet_sequence : List ℕ

pub init : PacketQueue
init = record {
  num_packets = 0;
  start_index = 0;
  packet_data = replicate packet_queue_size 0;
  packet_sequence = replicate packet_queue_size 0;
}

-- The freed packets are those that stand in the first `num_packets` places of the array.
pub clear : PacketQueue → PacketQueue × List ℕ
unfolding init
clear q = (init, take q.num_packets q.packet_data)

-- The result of the C function, the queue, and the packets freed.
pub push : PacketQueue → ℕ → ℕ → Bool × PacketQueue × List ℕ
push q packet_data packet_sequence =
    let index = (q.start_index + q.num_packets) % packet_queue_size in
    if q.num_packets == packet_queue_size then (false, q, packet_data ∷ []) else (
      true,
      record q {
        num_packets = q.num_packets + 1;
        packet_data = set q.packet_data index packet_data;
        packet_sequence = set q.packet_sequence index packet_sequence;
      },
      [],
    )

-- The packet and its sequence number, or NULL.
pub pop : PacketQueue → Option (ℕ × ℕ) × PacketQueue
pop q = if q.num_packets == 0 then (none, q) else (
  some (get_or q.packet_data q.start_index 0, get_or q.packet_sequence q.start_index 0),
  record q {
    num_packets = q.num_packets - 1;
    start_index = (q.start_index + 1) % packet_queue_size;
  },
)
