-- ===== src/Store.antt =====
-- storage.py: rows and transactions, the operations on running jobs, claims, recovery, and what
-- holds of them.
pub mod Statuses
pub mod Rows
pub mod Tx
pub mod Env
pub mod Queries
pub mod Fences
pub mod Events
pub mod Lifecycle
pub mod Interrupt
pub mod Controls
pub mod External
pub mod Recover
pub mod Stale
pub mod Unchanged
pub mod Release
pub mod Retries
pub mod Retired
pub mod Owned
pub mod Recovery
pub mod Coverage
pub mod Plan
pub mod Eligible
pub mod Resume
pub mod Claim
pub mod Limits
pub mod Slots
pub mod Stage
pub mod Enqueue
pub mod Commit
pub mod Verified
pub mod Committed
pub mod Moves
pub mod Approvals
pub mod Resources
pub mod Exclusive
pub mod Examples
