-- ===== src/Models.antt =====
-- models.py
pub mod Enums
pub mod Evidence
pub mod Handoffs
pub mod Gates
pub mod Records
