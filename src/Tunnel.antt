-- ===== src/Tunnel.antt =====
-- The two programs together, in both directions.
pub mod Received
pub mod Packets
pub mod Downstream
pub mod Upstream
pub mod Whole
pub mod Duplex
