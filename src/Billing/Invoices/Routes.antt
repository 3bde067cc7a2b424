-- ===== src/Billing/Invoices/Routes.antt =====
-- The routes of backend/app/routers/invoices.py and the books.
use new_builders_stream.Prelude.{
  ℕ, ◌+◌, ◌≡◌, refl, false, not, ◌==◌, ◌||◌, Option, some, none, ◌∷◌, or_else,
}
use new_builders_stream.Prelude.Table.{update_where}
use new_builders_stream.Money.{is_positive, quantize_cents}
use new_builders_stream.Models.{Db, Session, CurrentUser, Invoice, InvoiceStatus}
use new_builders_stream.Core.Exec.{ok, conflict, unprocessable, or_raise, require, resume}
use new_builders_stream.Core.Exec.Reads.{
  Reads, Reads-require, Reads-or_raise, after_read, checked_row, require-eq-ok, reads_rules,
}
use new_builders_stream.Core.Access.Laws.{authorize_module-Reads}
use new_builders_stream.Core.Audit.{write_audit_log}
use new_builders_stream.Core.Lookup.{get_project_or_404, require_client_access_to_project}
use new_builders_stream.Core.Lookup.Laws.{
  require_client_access_to_project-Reads, get_project_or_404-Reads,
}
use new_builders_stream.Core.Sync.Laws.{publish_record-eq, invoice}
use new_builders_stream.Billing.Invoices.{
  InvoiceResponse, InvoiceCreateRequest, InvoicePaymentCreateRequest, invoice_row,
  get_invoice_or_404, is_draft, is_paid, is_void, create_invoice, send_invoice, send_read,
  set_status, record_invoice_payment, void_invoice, void_locked, lock_invoice, invoice_response,
  update_invoice, store_invoice, insert_invoice, next_invoice_number,
}
use new_builders_stream.Billing.Ledger.{IsSound}
use new_builders_stream.Billing.Ledger.Sound.{IsSound-insert, IsSound-update_where}
use new_builders_stream.Billing.Invoices.Books.{invoice_kind, BooksSound, read_now}
use new_builders_stream.Billing.Invoices.Safe.{record_locked_payment-BooksSound}

pub get_invoice_or_404-Reads :
    (current : CurrentUser) (i : ℕ) → Reads (get_invoice_or_404 current i)
unfolding get_invoice_or_404
get_invoice_or_404-Reads current i = search (reads_rules, require_client_access_to_project-Reads)

-- What it returns is the visible row of the identifier.
pub get_invoice_or_404-row :
    (current : CurrentUser) (i : ℕ) (inv : Invoice) (db : Db)
    → get_invoice_or_404 current i db ≡ (ok inv, db)
    → invoice_row current.session i db ≡ some inv
unfolding get_invoice_or_404
get_invoice_or_404-row current i inv db h =
    checked_row _ (invoice_row current.session i)
      (λ r. require_client_access_to_project current r.project_id "Invoice not found") db h

-- A status other than paid, written to any invoice.
reopen-BooksSound :
    (i : ℕ) (set : Invoice → Invoice) (db : Db)
    → ((r : Invoice)
        → ((set r).id ≡ r.id)
          × ((set r).company_id ≡ r.company_id)
          × ((set r).amount ≡ r.amount)
          × (is_paid (set r).status ≡ false))
    → BooksSound db
    → IsSound invoice_kind
        (update_where (λ r. r.id == i) set db.invoices)
        db.invoice_payments
        db.next_id
reopen-BooksSound i set db keeps s =
    IsSound-update_where invoice_kind s (λ r. r.id == i) set (λ r. (keeps r).0) (λ r. (keeps r).1)
      (λ r. (keeps r).2) (λ r. (keeps r).3)

-- Sending an invoice that was read as a draft, whatever it is now.
pub send_read-BooksSound :
    (current : CurrentUser) (read : Invoice) (due : Option ℕ) (db : Db)
    → BooksSound db
    → BooksSound (send_read current read due db).1
unfolding send_read update_invoice write_audit_log invoice_response is_paid
send_read-BooksSound current read due db s =
    after_read {B = InvoiceResponse} BooksSound
      (require (is_draft read.status) (conflict "Only a draft invoice can be sent")) _ db
      (Reads-require _ _) s
      λ _ _.
        after_read {B = InvoiceResponse} BooksSound
          (or_raise (unprocessable "due_date is required") (or_else due read.due_date)) _ db
          (Reads-or_raise _ _) s
          λ date _.
            reopen-BooksSound read.id
              (λ r. record r { status = InvoiceStatus.sent; due_date = some date }) db
              (λ r. (refl, refl, refl, refl)) s

pub send_invoice-BooksSound :
    (current : CurrentUser) (i : ℕ) (due : Option ℕ) (db : Db)
    → BooksSound db
    → BooksSound (send_invoice current i due db).1
unfolding send_invoice
send_invoice-BooksSound current i due db s =
    after_read BooksSound _ _ db (authorize_module-Reads _ _ _ _) s λ _ _.
      after_read BooksSound _ _ db (get_invoice_or_404-Reads _ _) s
        λ inv _. send_read-BooksSound current inv due db s

-- Recording a payment: refused, missing, or accepted.
pub record_invoice_payment-BooksSound :
    (current : CurrentUser) (i : ℕ) (body : InvoicePaymentCreateRequest) (db : Db)
    → BooksSound db
    → BooksSound (record_invoice_payment current i body db).1
unfolding record_invoice_payment
record_invoice_payment-BooksSound current i body db s =
    after_read BooksSound _ _ db (authorize_module-Reads _ _ _ _) s λ _ _.
      after_read BooksSound _ _ db (Reads-require _ _) s λ _ positive.
        after_read BooksSound _ _ db (get_invoice_or_404-Reads _ _) s λ inv got.
          record_locked_payment-BooksSound current body db inv s (require-eq-ok _ _ db positive)
            (read_now current.session i inv db (get_invoice_or_404-row current i inv db got))

pub lock_invoice-Reads : (session : Session) (inv : Invoice) → Reads (lock_invoice session inv)
unfolding lock_invoice
lock_invoice-Reads session inv = search reads_rules

-- A void from its row lock on.
pub void_locked-BooksSound :
    (current : CurrentUser) (read : Invoice) (db : Db)
    → BooksSound db
    → BooksSound (void_locked current read db).1
unfolding void_locked update_invoice write_audit_log invoice_response is_paid
void_locked-BooksSound current read db s =
    after_read BooksSound _ _ db (lock_invoice-Reads _ _) s λ inv _.
      after_read {B = InvoiceResponse} BooksSound
        (require (not (is_paid inv.status || is_void inv.status))
          (conflict "Cannot void this invoice"))
        _ db (Reads-require _ _) s
        λ _ _.
          reopen-BooksSound inv.id (set_status InvoiceStatus.void) db
            (λ r. (refl, refl, refl, refl)) s

pub void_invoice-BooksSound :
    (current : CurrentUser) (i : ℕ) (db : Db)
    → BooksSound db
    → BooksSound (void_invoice current i db).1
unfolding void_invoice
void_invoice-BooksSound current i db s =
    after_read BooksSound _ _ db (authorize_module-Reads _ _ _ _) s λ _ _.
      after_read BooksSound _ _ db (get_invoice_or_404-Reads _ _) s
        λ inv _. void_locked-BooksSound current inv db s

pub next_invoice_number-Reads : (session : Session) (c : ℕ) → Reads (next_invoice_number session c)
unfolding next_invoice_number
next_invoice_number-Reads session c = search reads_rules

-- What a stored invoice writes to the books.
store_invoice-books :
    (current : CurrentUser) (inv : Invoice) (db : Db)
    → let db' = (store_invoice current inv db).1 in
      (db'.invoices ≡ inv ∷ db.invoices)
      × (db'.invoice_payments ≡ db.invoice_payments)
      × (db'.next_id ≡ db.next_id)
unfolding store_invoice insert_invoice invoice_response
store_invoice-books current inv db = rw (publish_record-eq, invoice, resume) (refl, refl, refl)

-- Creating an invoice.
pub create_invoice-BooksSound :
    (current : CurrentUser) (project_id : ℕ) (body : InvoiceCreateRequest) (db : Db)
    → BooksSound db
    → BooksSound (create_invoice current project_id body db).1
unfolding create_invoice
create_invoice-BooksSound current project_id body db s =
    after_read {B = InvoiceResponse} BooksSound _ _ db (authorize_module-Reads _ _ _ _) s λ _ _.
      after_read {B = InvoiceResponse} BooksSound
        (require (is_positive body.amount) (unprocessable "amount must be greater than 0")) _ db
        (Reads-require _ _) s
        λ _ _.
          after_read {B = InvoiceResponse} BooksSound (get_project_or_404 current project_id) _ db
            (get_project_or_404-Reads _ _) s
            λ project _.
              after_read {B = InvoiceResponse} BooksSound
                (next_invoice_number current.session project.company_id) _ db
                (next_invoice_number-Reads _ _) s
                λ number _.
                  stored
                    (record {
                      id = db.next_id;
                      project_id = project.id;
                      company_id = project.company_id;
                      estimate_id = none;
                      invoice_number = number;
                      amount = quantize_cents body.amount;
                      status = InvoiceStatus.draft;
                      due_date = body.due_date;
                    })
                    refl refl
  where
    stored :
        (inv : Invoice)
        → inv.id ≡ db.next_id
        → inv.status ≡ InvoiceStatus.draft
        → BooksSound (store_invoice current inv (record db { next_id = db.next_id + 1 })).1
    stored inv fresh draft =
        let (a, b, c) = store_invoice-books current inv (record db { next_id = db.next_id + 1 }) in
        rw (a, b, c) (IsSound-insert invoice_kind s inv fresh (unfold is_paid in rw draft))
