-- ===== src/Relay.antt =====
-- src/relay-session.mjs: the pool of relays and the session of a swarm on it.
pub mod Events
pub mod Pool
pub mod Session
mod Examples
