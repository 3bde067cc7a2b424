-- ===== src/Billing.antt =====
-- Accounting: client invoices and supplier bills.
pub mod Ledger
pub mod Invoices
pub mod Bills
pub mod Overdue
pub mod Steps
