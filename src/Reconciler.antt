-- ===== src/Reconciler.antt =====
-- process_reconciler.py: ending or quarantining the process group of a lost worker.
pub mod Identity
pub mod Runtime
pub mod Reconcile
pub mod Examples
