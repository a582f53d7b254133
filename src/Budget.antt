-- ===== src/Budget.antt =====
-- demo/upload-budget.mjs: the upload allowance that the tabs of one origin share.
pub mod Ledger
pub mod Tabs
pub mod Limit
pub mod Grants
pub mod Turns
mod Examples
