-- ===== src/Netcode.antt =====
-- netcode/netcode.c: a connection protocol over UDP with encrypted packets.
pub mod Replay
pub mod PacketQueue
pub mod Bytes
pub mod Address
pub mod Clock
pub mod Crypto
pub mod Token
pub mod Packet
pub mod EncryptionManager
pub mod ConnectTokenEntries
pub mod Client
pub mod Server
