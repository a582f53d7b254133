-- ===== src/Origin.antt =====
-- src/browser/origin-range.mjs: pieces of a segment from its origin.
pub mod Range
pub mod Exact
mod Examples
