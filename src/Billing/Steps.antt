-- ===== src/Billing/Steps.antt =====
-- The writes of the billing routes, of the routes that draft invoices and of the daily task as steps of the database, in the order in
-- which their transactions lock the row they write and commit.
pub mod SparesBills
pub mod SparesInvoices
pub mod Safe
use new_builders_stream.Prelude.{ℕ, String, ◌≡◌, ◌≤◌, Bool, true, Option}
use new_builders_stream.Money.{is_positive}
use new_builders_stream.Models.{Db, CurrentUser, Invoice, Bill, SyncJob}
use new_builders_stream.Core.Exec.{Exec}
use new_builders_stream.Core.Transaction.{transaction}
use new_builders_stream.Billing.Invoices
use new_builders_stream.Billing.Invoices.{InvoiceCreateRequest, InvoicePaymentCreateRequest}
use new_builders_stream.Billing.Bills
use new_builders_stream.Billing.Invoices.Books as InvoiceBooks
use new_builders_stream.Billing.Bills.Books as BillBooks
use new_builders_stream.Billing.Bills.{BillCreateRequest, BillPaymentCreateRequest}
use new_builders_stream.Sales.Projects.{ProjectStatusUpdateRequest, update_project_status}
use new_builders_stream.Sales.ChangeOrders.{SignatureForm}
use new_builders_stream.Sales.Estimates.Signature.{approve_estimate}
use new_builders_stream.Billing.Overdue.{flag_overdue_financial_records}

-- A write outside the billing tables.
pub record Elsewhere (db db' : Db) : Type 0 where
  pub invoices : db'.invoices ≡ db.invoices
  pub invoice_payments : db'.invoice_payments ≡ db.invoice_payments
  pub bills : db'.bills ≡ db.bills
  pub bill_payments : db'.bill_payments ≡ db.bill_payments
  pub next_id : db.next_id ≤ db'.next_id

module _ (send : SyncJob → Bool) where
  -- The database that a request leaves.
  abbrev pub after : {A : Type 0} → Exec A → Db → Db
  after route db = (transaction send route db).database

  -- A request of any caller with any body. A payment, a void and the sending of an invoice are also
  -- steps from the point where they have read the row: other requests may have committed since.
  pub data Step : Db → Db → Type 0 where
    invoice_created :
        (db : Db) (current : CurrentUser) (project_id : ℕ) (body : InvoiceCreateRequest)
        → Step db (after (Invoices.create_invoice current project_id body) db)
    invoice_sent :
        (db : Db) (current : CurrentUser) (i : ℕ) (due : Option ℕ)
        → Step db (after (Invoices.send_invoice current i due) db)
    invoice_sent_read :
        (db : Db) (current : CurrentUser) (read : Invoice) (due : Option ℕ)
        → Step db (after (Invoices.send_read current read due) db)
    invoice_payment :
        (db : Db) (current : CurrentUser) (i : ℕ) (body : InvoicePaymentCreateRequest)
        → Step db (after (Invoices.record_invoice_payment current i body) db)
    invoice_payment_locked :
        (db : Db) (current : CurrentUser) (read : Invoice) (body : InvoicePaymentCreateRequest)
        → is_positive body.amount ≡ true
        → InvoiceBooks.ReadBefore current.session read db
        → Step db (after (Invoices.record_locked_payment current read body) db)
    invoice_void :
        (db : Db) (current : CurrentUser) (i : ℕ)
        → Step db (after (Invoices.void_invoice current i) db)
    invoice_void_locked :
        (db : Db) (current : CurrentUser) (read : Invoice)
        → Step db (after (Invoices.void_locked current read) db)
    bill_created :
        (db : Db) (current : CurrentUser) (body : BillCreateRequest)
        → Step db (after (Bills.create_bill current body) db)
    bill_payment :
        (db : Db) (current : CurrentUser) (i : ℕ) (body : BillPaymentCreateRequest)
        → Step db (after (Bills.record_bill_payment current i body) db)
    bill_payment_locked :
        (db : Db) (current : CurrentUser) (read : Bill) (body : BillPaymentCreateRequest)
        → is_positive body.amount ≡ true
        → BillBooks.ReadBefore current.session read db
        → Step db (after (Bills.record_locked_payment current read body) db)
    bill_void :
        (db : Db) (current : CurrentUser) (i : ℕ) → Step db (after (Bills.void_bill current i) db)
    bill_void_locked :
        (db : Db) (current : CurrentUser) (read : Bill)
        → Step db (after (Bills.void_locked current read) db)
    project_status :
        (db : Db) (current : CurrentUser) (i : ℕ) (body : ProjectStatusUpdateRequest)
        → Step db (after (update_project_status current i body) db)
    estimate_approved :
        (db : Db) (same_email : String → String → Bool) (current : CurrentUser) (i : ℕ)
        (form : SignatureForm)
        → Step db (after (approve_estimate same_email current i form) db)
    overdue_flagged : (db : Db) (today : ℕ) → Step db (flag_overdue_financial_records today db)
    elsewhere : (db db' : Db) → Elsewhere db db' → Step db db'

  -- Any number of steps.
  pub data Reach : Db → Db → Type 0 where
    done : (db : Db) → Reach db db
    then : (a b c : Db) → Reach a b → Step b c → Reach a c
