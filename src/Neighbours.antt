-- ===== src/Neighbours.antt =====
-- src/browser/neighbour-discovery.mjs: which viewer to try next, and which neighbours are stale.
pub mod State
pub mod Candidates
pub mod Contexts
pub mod Holders
pub mod Window
pub mod Attempts
pub mod Calls
pub mod Bounds
mod Untouched
pub mod Frugal
pub mod Chosen
pub mod Search
mod Examples
