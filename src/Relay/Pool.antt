-- ===== src/Relay/Pool.antt =====
-- src/relay-session.mjs: `RelayPool`. A socket and a handler are the
-- numbers that stand for them; what an operation does outside is the list of its effects, in order.
-- A send to a socket that is closing does nothing, as in the standard, so no send throws.
pub mod Frames
pub mod State
pub mod Calls
pub mod Runs
pub mod Calm
pub mod Recent
pub mod Steps
pub mod Delivered
mod Subscribed
pub mod Genuine
pub mod Bounds
pub mod Closed
pub mod Dialling
pub mod Listeners
pub mod Waiting
pub mod Over
