-- ===== src/Rpc.antt =====
-- workflows/reconcile/src/rpc.ts: the CKB RPC seen by a reconciliation.
pub mod Session
pub mod Inspect
pub mod Observe
pub mod Client
