-- ===== src/Billing/Invoices.antt =====
-- backend/app/routers/invoices.py and backend/app/services/invoicing.py: client invoices and the
-- payments recorded against them.
pub mod Books
pub mod Payment
pub mod Safe
pub mod Routes
pub mod Recorded
pub mod Numbers
use new_builders_stream.Prelude.{
  ℕ, ◌+◌, Bool, true, false, not, ◌&&◌, ◌||◌, ◌==◌, String, Option, none, some, List, [], ◌∷◌,
  or_else, if◌then◌else◌,
}
use new_builders_stream.Prelude.Int.{ℤ, ◌-ℤ◌, leb_ℤ, ltb_ℤ}
use new_builders_stream.Prelude.Table.{find, update_where, sum_where, count_where}
use new_builders_stream.Money.{Decimal, is_positive, quantize_cents}
use new_builders_stream.Models.{
  Db, Session, CurrentUser, Role, admin, accountant, client, accounting, Invoice, InvoiceStatus,
  InvoiceNumber, InvoicePayment, uuid, decimal, day,
}
use new_builders_stream.Core.Exec.{
  Exec, HttpError, not_found, conflict, unprocessable, server_error, pure, gets, modify, require,
  or_raise, fetch, uuid4, ◌>>=◌, ◌>>◌,
}
use new_builders_stream.Core.Access.{post, authorize_module, require_role, same_role}
use new_builders_stream.Core.Audit.{write_audit_log}
use new_builders_stream.Core.Lookup.{
  visible_row, get_project_or_404, require_client_access_to_project,
}
use new_builders_stream.Core.Events.{invoice_created, invoice_payment_recorded}
use new_builders_stream.Core.Sync.{RecordCreated, publish_record}

abbrev pub write_roles : List Role
write_roles = admin ∷ accountant ∷ []

abbrev read_roles : List Role
read_roles = admin ∷ accountant ∷ client ∷ []

unfoldable pub is_draft : InvoiceStatus → Bool
is_draft InvoiceStatus.draft = true
is_draft _ = false

unfoldable pub is_paid : InvoiceStatus → Bool
is_paid InvoiceStatus.paid = true
is_paid _ = false

unfoldable pub is_void : InvoiceStatus → Bool
is_void InvoiceStatus.void = true
is_void _ = false

unfoldable pub invoice_row : Session → ℕ → Db → Option Invoice
unfolding visible_row
invoice_row session invoice_id db =
    visible_row session (λ r. r.id) (λ r. r.company_id) invoice_id db.invoices

-- `_get_invoice_or_404`.
unfoldable pub get_invoice_or_404 : CurrentUser → ℕ → Exec Invoice
unfolding invoice_row
get_invoice_or_404 current invoice_id = do
  invoice ← fetch (not_found "Invoice not found") (invoice_row current.session invoice_id)
  require_client_access_to_project current invoice.project_id "Invoice not found"
  pure invoice

-- `_paid_amount`.
unfoldable pub paid_amount : Session → ℕ → Db → ℤ
unfolding sum_where
paid_amount session invoice_id db =
    sum_where (λ p. session.visible p.company_id && p.invoice_id == invoice_id) (λ p. p.amount)
      db.invoice_payments

pub record InvoiceResponse : Type 0 where
  pub invoice : Invoice
  pub outstanding_balance : ℤ

-- `_invoice_response`.
unfoldable pub invoice_response : CurrentUser → Invoice → Exec InvoiceResponse
unfolding paid_amount
invoice_response current invoice = do
  paid ← gets (paid_amount current.session invoice.id)
  pure (record { invoice = invoice; outstanding_balance = invoice.amount -ℤ paid })

-- `next_invoice_number`: INV-<year>-<how many invoices the company has, plus one>.
unfoldable pub next_invoice_number : Session → ℕ → Exec InvoiceNumber
unfolding count_where
next_invoice_number session company_id = do
  count ← gets λ db.
      count_where (λ r. session.visible r.company_id && r.company_id == company_id) db.invoices
  pure (record { year = session.year; sequence = count + 1 })

-- `session.add(Invoice(...)); flush()`.
unfoldable pub insert_invoice : Invoice → Exec (Unit {0})
insert_invoice invoice = modify (λ db. record db { invoices = invoice ∷ db.invoices })

-- The flush of an invoice: an UPDATE of the columns that the request has set.
unfoldable pub update_invoice : ℕ → (Invoice → Invoice) → Exec (Unit {0})
unfolding update_where
update_invoice invoice_id set =
    modify λ db. record db { invoices = update_where (λ r. r.id == invoice_id) set db.invoices }

abbrev pub set_status : InvoiceStatus → Invoice → Invoice
set_status status r = record r { status = status }

pub record InvoiceCreateRequest : Type 0 where
  pub amount : Decimal
  pub due_date : Option ℕ

-- The insert, its event and the response: the end of `create_invoice`.
unfoldable pub store_invoice : CurrentUser → Invoice → Exec InvoiceResponse
store_invoice current invoice = do
  insert_invoice invoice
  publish_record current.session invoice_created
      (record { entity_type = "invoice"; entity_id = invoice.id; company_id = invoice.company_id })
  invoice_response current invoice

unfoldable pub create_invoice : CurrentUser → ℕ → InvoiceCreateRequest → Exec InvoiceResponse
create_invoice current project_id body = do
  authorize_module current write_roles post accounting
  require (is_positive body.amount) (unprocessable "amount must be greater than 0")
  project ← get_project_or_404 current project_id
  invoice_number ← next_invoice_number current.session project.company_id
  id ← uuid4
  store_invoice current (record {
    id = id;
    project_id = project.id;
    company_id = project.company_id;
    estimate_id = none;
    invoice_number = invoice_number;
    amount = quantize_cents body.amount;
    status = InvoiceStatus.draft;
    due_date = body.due_date;
  })

-- What `send_invoice` does with the invoice that it has read; it takes no lock.
unfoldable pub send_read : CurrentUser → Invoice → Option ℕ → Exec InvoiceResponse
send_read current invoice requested_due_date = do
  require (is_draft invoice.status) (conflict "Only a draft invoice can be sent")
  due_date ←
      or_raise (unprocessable "due_date is required") (or_else requested_due_date invoice.due_date)
  let set_sent : Invoice → Invoice =
      λ r. record r { status = InvoiceStatus.sent; due_date = some due_date }
  update_invoice invoice.id set_sent
  write_audit_log invoice.company_id (some current.user_id) "invoice.sent" "invoice" invoice.id []
  invoice_response current (set_sent invoice)

unfoldable pub send_invoice : CurrentUser → ℕ → Option ℕ → Exec InvoiceResponse
send_invoice current invoice_id requested_due_date = do
  authorize_module current write_roles post accounting
  invoice ← get_invoice_or_404 current invoice_id
  send_read current invoice requested_due_date

pub record InvoicePaymentCreateRequest : Type 0 where
  pub amount : Decimal
  pub paid_date : ℕ

-- A payment refuses a draft, a void and a paid invoice.
unfoldable pub takes_payment : InvoiceStatus → Bool
unfolding is_draft is_void is_paid
takes_payment status = not (is_draft status || (is_void status || is_paid status))

-- `SELECT ... FOR UPDATE`. The row is locked and has to be there, but the query returns the object
-- that the session holds since `_get_invoice_or_404`, with the columns read then: an object of the
-- identity map is not loaded again without populate_existing.
unfoldable pub lock_invoice : Session → Invoice → Exec Invoice
unfolding invoice_row
lock_invoice session invoice = do
  fetch (server_error "No row was found when one was required") (invoice_row session invoice.id)
  pure invoice

-- `invoice.status = "paid"` once the payments cover the amount.
unfoldable pub settle : CurrentUser → Invoice → Exec (Unit {0})
unfolding paid_amount update_invoice
settle current invoice = do
  paid ← gets (paid_amount current.session invoice.id)
  if leb_ℤ invoice.amount paid
      then update_invoice invoice.id (set_status InvoiceStatus.paid)
      else pure tt

-- From the row lock to the response, with the invoice as the request has read it before the lock.
unfoldable pub record_locked_payment :
    CurrentUser → Invoice → InvoicePaymentCreateRequest → Exec InvoicePayment
record_locked_payment current read body = do
  invoice ← lock_invoice current.session read
  require (takes_payment invoice.status) (conflict "Cannot record a payment against this invoice")
  let amount : ℤ = quantize_cents body.amount
  already_paid ← gets (paid_amount current.session invoice.id)
  require (leb_ℤ amount (invoice.amount -ℤ already_paid))
      (conflict "Payment amount exceeds the invoice's remaining balance")
  id ← uuid4
  let payment : InvoicePayment = record {
    id = id;
    invoice_id = invoice.id;
    company_id = invoice.company_id;
    amount = amount;
    paid_date = body.paid_date;
    recorded_by = current.user_id;
  }
  modify (λ db. record db { invoice_payments = payment ∷ db.invoice_payments })
  settle current invoice
  write_audit_log invoice.company_id (some current.user_id) "invoice.payment_recorded" "invoice"
      invoice.id
      (("payment_id", uuid id)
        ∷ ("amount", decimal body.amount)
        ∷ ("paid_date", day body.paid_date)
        ∷ [])
  publish_record current.session invoice_payment_recorded
      (record { entity_type = "payment"; entity_id = id; company_id = invoice.company_id })
  pure payment

unfoldable pub record_invoice_payment :
    CurrentUser → ℕ → InvoicePaymentCreateRequest → Exec InvoicePayment
record_invoice_payment current invoice_id body = do
  authorize_module current write_roles post accounting
  require (is_positive body.amount) (unprocessable "amount must be greater than 0")
  invoice ← get_invoice_or_404 current invoice_id
  record_locked_payment current invoice body

-- From the row lock to the response.
unfoldable pub void_locked : CurrentUser → Invoice → Exec InvoiceResponse
void_locked current read = do
  invoice ← lock_invoice current.session read
  require (not (is_paid invoice.status || is_void invoice.status))
      (conflict "Cannot void this invoice")
  update_invoice invoice.id (set_status InvoiceStatus.void)
  write_audit_log invoice.company_id (some current.user_id) "invoice.voided" "invoice" invoice.id []
  invoice_response current (set_status InvoiceStatus.void invoice)

unfoldable pub void_invoice : CurrentUser → ℕ → Exec InvoiceResponse
void_invoice current invoice_id = do
  authorize_module current write_roles post accounting
  invoice ← get_invoice_or_404 current invoice_id
  void_locked current invoice
