-- ===== src/Grant.antt =====
-- src/v2/grant.rs: capability grants, their ledger, the organizational chart and the permits for
-- cross-branch sessions.
pub mod Record
pub mod Org
pub mod Ledger
pub mod Permit
pub mod Examples
