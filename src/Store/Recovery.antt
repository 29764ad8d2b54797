-- ===== src/Store/Recovery.antt =====
-- storage.py: which jobs `recover_expired_leases` gives back, and which it leaves alone.
pub mod Steps
pub mod Jobs
