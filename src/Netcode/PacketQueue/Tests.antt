-- ===== src/Netcode/PacketQueue/Tests.antt =====
-- Runs of the packet queue of netcode/netcode.c.
use yojimbo_cmake.Common.{◌≡◌, refl, true, false, some, [], ◌∷◌, take, drop, ◌==◌, if◌then◌else◌}
use yojimbo_cmake.Netcode.PacketQueue.{PacketQueue, init, clear, push, pop}
use yojimbo_cmake.Netcode.PacketQueue.Fifo.{
  IsValid, init-IsValid, contents, fifo_push, fifo_pop, push-refines, pop-refines,
  clear_frees_popped,
}

-- Two packets, at the addresses 1000 and 2000.
abbrev two_packets : PacketQueue
two_packets = (push (push init 1000 1).1 2000 2).1

two_packets-IsValid : IsValid two_packets
two_packets-IsValid =
    (push-refines (push init 1000 1).1 2000 2 (push-refines init 1000 1 init-IsValid).3).3

at_start : two_packets.start_index ≡ 0
unfolding push init
at_start = refl

two_contents : contents two_packets ≡ (1000, 1) ∷ (2000, 2) ∷ []
unfolding push init
two_contents = refl

push-refines_example :
    let (taken, q', freed) = push two_packets 3000 3 in
    (contents q' ≡ fifo_push (contents two_packets) (3000, 3))
    × (taken ≡ (if two_packets.num_packets == 256 then false else true))
    × (freed ≡ (if two_packets.num_packets == 256 then 3000 ∷ [] else []))
    × IsValid q'
push-refines_example = push-refines two_packets 3000 3 two_packets-IsValid

pop-refines_example :
    let (out, q') = pop two_packets in
    ((out, contents q') ≡ fifo_pop (contents two_packets)) × IsValid q'
pop-refines_example = pop-refines two_packets two_packets-IsValid

clear_frees_popped_example :
    ((pop two_packets).0 ≡ some (1000, 1))
    × (contents (pop two_packets).1 ≡ (2000, 2) ∷ [])
    × ((clear (pop two_packets).1).1 ≡ 1000 ∷ take 0 (drop 1 two_packets.packet_data))
clear_frees_popped_example =
    clear_frees_popped two_packets 1000 1 (2000, 2) [] two_packets-IsValid at_start two_contents
