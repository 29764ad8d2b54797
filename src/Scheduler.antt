-- ===== src/Scheduler.antt =====
-- scheduler.py: the worker pools over an atomic store.
mod Examples
pub mod Calls
pub mod Pool
pub mod Turn
pub mod Output
pub mod Finalize
pub mod Execute
