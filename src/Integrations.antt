-- ===== src/Integrations.antt =====
-- The accounting integrations of the program.
pub mod Payload
pub mod Provider
pub mod AccountingSync
