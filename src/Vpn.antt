-- ===== src/Vpn.antt =====
-- x2ssh/src/vpn
pub mod Agent
pub mod Forward
pub mod Tun
pub mod Hooks
pub mod IpRoute
pub mod Routing
pub mod Deploy
pub mod Keeps
pub mod Session
