-- ===== src/Examples.antt =====
-- Runs of the model at concrete inputs, and each result at an input where its hypotheses hold.
pub mod World
mod Wire
mod Build
mod Client
mod Settings
pub mod Table
pub mod Session
pub mod Lifecycle
pub mod Interrupted
mod Tunnelled
mod Routes
mod Sharing
pub mod Main
mod Health
pub mod Vpn
mod Proxy
mod Agent
mod Duplex
mod Forwarding
