-- ===== src/Transfer.antt =====
-- src/object-transfer.mjs.
pub mod Frame
pub mod Decode
pub mod Identity
pub mod Receive
pub mod Serve
mod Examples
