-- ===== src/Reliable.antt =====
-- reliable/reliable.c: packet acks, fragmentation and reassembly over an unreliable transport.
pub mod Sequence
pub mod SequenceBuffer
pub mod Bytes
pub mod Header
pub mod Fragment
pub mod Floats
pub mod Endpoint
