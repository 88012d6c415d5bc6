-- ===== src/Lib.antt =====
-- yojimbo is a network library for games. Its core protocol is in two C libraries of the
-- repository, which this development models: reliable/reliable.c, which adds acks,
-- fragmentation and reassembly to packets over an unreliable transport, and netcode/netcode.c,
-- a connection protocol over UDP with encrypted packets.
--
-- Common holds what the parts share: lists over native numbers with the out of range value
-- written out, bits, memcpy into a buffer, C integers that can be negative, a loop that stops at
-- the first index that passes, and Result, what a routine on raw memory can do: return a value
-- (ok), return its error value (invalid), or reach outside of its buffer (fault).
--
-- Reliable is reliable/reliable.c, one module for each part:
--   Sequence: reliable_sequence_greater_than and reliable_sequence_less_than.
--   SequenceBuffer: reliable_sequence_buffer_*, under the same names. An entry pointer is the
--     index of its slot. Slots, Window and Preserved have the window invariant, Members reads a
--     valid buffer as a set of sequence numbers, AckBits is about generate_ack_bits.
--   Bytes: reliable_write_uint8 to reliable_read_bytes, on lists of bytes.
--   Header: reliable_write_packet_header and reliable_read_packet_header, in RoundTrip and
--     Safety.
--   Fragment: reliable_read_fragment_header, reliable_store_fragment_data, and the fragment
--     header that reliable_endpoint_send_packet writes, in Headers.
--   Endpoint: reliable_endpoint_t and its functions: Send is reliable_endpoint_send_packet,
--     Receive is reliable_endpoint_receive_packet, Statistics is reliable_endpoint_update. What
--     the endpoint hands to its callbacks is a list of events. Valid, Sending, Fragmenting,
--     Acking, Depth and Assembling have the theorems.
-- An endpoint owns three sequence buffers: of sent packets, of received packets, and of packets
-- being put together. Sending takes a number, reads the acks off the received packets and notes
-- the packet as sent; receiving notes the packet as received and reads its acks against the
-- sent packets; a packet that is put together is received by the same function.
--
-- Netcode is netcode/netcode.c, the tokens and packets, and the client and the server:
--   Bytes: netcode_write_uint8 to netcode_read_bytes.
--   Address: netcode_address_equal, and in Address/Wire the form that addresses have in tokens.
--   Replay: netcode_replay_protection_*. Accepted has what it lets through.
--   PacketQueue: netcode_packet_queue_*. Fifo has the list that it stands for.
--   Crypto: netcode_encrypt_aead and the three routines beside it. The memory that a routine gets is
--     a list, and encryption puts its result in the place of the message. Sodium is a parameter
--     with what its documentation says of it (IsAead); Crypto/Plain is an encryption for tests.
--   Token: the tokens. Private, Challenge and Connect have netcode_write_*, netcode_read_*,
--     netcode_encrypt_* and netcode_decrypt_* of one token each.
--   Packet: netcode_write_packet and netcode_read_packet, in Write and Read, with the variable
--     length sequence number in Sequence. RoundTrip, Request, Safety, Replayed and Total have the
--     theorems.
--   EncryptionManager: netcode_encryption_manager_*.
--   ConnectTokenEntries: netcode_connect_token_entries_*.
--   Client: netcode_client_t and netcode_client_*. Connect has connecting, disconnecting and sending
--     to the server, Receive has what a packet does, Update has netcode_client_update. The calls
--     that leave the client, to a socket or a callback, are a list of events, and the packets that
--     arrive are an argument. Moves, Safety and Handshake have the theorems.
--   Server: netcode_server_t and netcode_server_*, on the slots of its clients. Slots has starting,
--     stopping, sending to a client and disconnecting it, Connecting the connection request and
--     response, Receive what a packet does, Update has netcode_server_update, what the application
--     sends and receives, and loopback clients. Sound has the invariant of its slots, Frame what
--     a disconnection changes, Handshake the response that connects a client.
-- The client reads the packets that arrive with the key of its connect token and its replay
-- protection, changes its state by them, sends the packet of its state, and then looks at its
-- timeouts. A connection request carries a private token, which only a server can decrypt. The
-- server answers it with a challenge token, which only a server can read again, and a mapping from
-- the address of the client to its keys. The response that brings the challenge token back gives
-- the client a slot, if one is free. What counts as a fault: an access past the
-- bytes of a packet, a token or another buffer of bytes; one past the 32 server addresses of the
-- connect token of a client, or past the 2048 connect token entries of a server; and, where the
-- code lets an index be -1, its use. Elsewhere an array of a struct is a list in which a place past
-- the end reads as its default and is not written to, so nothing is said of such an access. The
-- arrays of the encryption manager, of the slots of a server and of the packet queues are among
-- these.
--
-- Machine integers keep their wrap-around: sequence numbers modulo 2 ^ 16, counters and the
-- replay sum modulo 2 ^ 64. Loops have the number of rounds that the code gives them. The
-- receiver calls itself on a packet that it has put together; Receive.receive_packet takes the
-- depth of the calls that is allowed, 0 of which is a fault. A packet that is put together begins
-- with a packet header and is no fragment again, so that 2 is the depth that the code needs.
-- Floating point arithmetic is a parameter (Floats, Clock, Timer), and so are process_packet_function
-- and the contents of allocated memory (Environment). Assertions are off, as in a release build.
--
-- The sequence buffers are proved for sizes from 2 to 32768 that divide 65536, the endpoint's
-- for sent packets below 32768: with other sizes a number changes its slot when the numbers wrap
-- around.
--
-- Not modelled: logging, allocation, sockets and the text form of addresses; the network
-- simulator of netcode/netcode.c, and the sockets of its client and server; the C++ layer in
-- include and source; the copies of third-party code in sodium and tlsf; serialize, matcher, the
-- tests and the example programs.
pub mod Common
pub mod Reliable
pub mod Netcode
