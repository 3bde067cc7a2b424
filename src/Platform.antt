-- ===== src/Platform.antt =====
-- What the operator of the platform does to its tenants.
pub mod Overrides
