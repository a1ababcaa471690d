-- ===== src/Socks.antt =====
-- x2ssh/src/socks.rs: one SOCKS5 connection.
pub mod Protocol
pub mod Connect
pub mod Serve
pub mod Answers
