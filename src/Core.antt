-- ===== src/Core.antt =====
-- backend/app/core and the services that every route uses: requests as actions on the database,
-- access checks, the audit log, events and what runs after the commit.
pub mod Exec
pub mod Access
pub mod Audit
pub mod Cursor
pub mod Pagination
pub mod Lookup
pub mod Events
pub mod Sync
pub mod Transaction
