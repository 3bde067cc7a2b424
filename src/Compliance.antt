-- ===== src/Compliance.antt =====
-- Compliance documents of subcontractors: the daily scan for documents that expire.
pub mod Expiry
