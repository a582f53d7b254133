-- ===== src/Flow.antt =====
-- src/browser/verified-piece-flow.mjs: the samples of one transfer's rate.
pub mod Batch
pub mod Rates
mod Examples
