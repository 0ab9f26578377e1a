-- ===== src/Reconcile.antt =====
-- workflows/reconcile/src/reconcile.ts and monitoring.ts: what a reconciliation decides.
pub mod Schedule
pub mod Domain
pub mod Corroborate
pub mod Assess
pub mod Draft
pub mod Contention
pub mod Spend
pub mod Ordinary
pub mod Judge
pub mod Compete
pub mod Decide
pub mod Outage
