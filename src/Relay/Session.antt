-- ===== src/Relay/Session.antt =====
-- src/relay-session.mjs: `RelaySwarmSession`.
pub mod State
pub mod Keys
pub mod Sending
pub mod Receiving
pub mod Derived
mod Rekeyed
pub mod Sound
mod Live
pub mod Signals
pub mod Presences
pub mod Start
pub mod Starts
pub mod Waits
