-- ===== src/Proto.antt =====
-- proto/src: the framing of packets on a byte stream, a big-endian u32 length and then the packet.
pub mod Bytes
pub mod Stream
pub mod Framing
pub mod RoundTrip
