-- ===== src/Accounts.antt =====
-- src/account-upload-budget.mjs: the ledger of the upload that each account has authorised.
pub mod State
pub mod Canonical
pub mod Validity
pub mod Grants
pub mod Requests
pub mod Authorise
pub mod Drain
pub mod Charges
pub mod Reserves
pub mod Leads
pub mod Links
mod Examples
