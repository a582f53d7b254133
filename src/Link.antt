-- ===== src/Link.antt =====
-- src/browser/peer-link.mjs: one data channel between two viewers, and the protocol on it.
pub mod State
pub mod Request
pub mod Download
pub mod Advice
pub mod Uploads
pub mod Messages
pub mod Bounds
pub mod Closed
pub mod Promise
mod Examples
