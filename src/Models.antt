-- ===== src/Models.antt =====
-- backend/app/models: the rows that the modelled components read and write, and the database.
-- A uuid is a number. Times are numbers of instants, dates numbers of days.
mod Tenancy
mod Sales
mod Billing
mod Database
pub use Tenancy.*
pub use Sales.*
pub use Billing.*
pub use Database.*
