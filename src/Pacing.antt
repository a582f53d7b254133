-- ===== src/Pacing.antt =====
-- src/browser/upload-pacing.mjs: requests that wait for the upload bucket to refill.
pub mod Pacer
pub mod Balance
pub mod Calls
mod Examples
