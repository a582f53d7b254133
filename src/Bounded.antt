-- ===== src/Bounded.antt =====
-- src/browser/bounded-operation.mjs: an operation with a deadline and a signal.
pub mod Promise
pub mod Settles
mod Examples
