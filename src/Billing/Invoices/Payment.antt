-- ===== src/Billing/Invoices/Payment.antt =====
-- `record_invoice_payment`: what an accepted payment writes, and when one is refused.
use new_builders_stream.Prelude.{
  ◌+◌, ◌==◌, ◌≡◌, refl, true, false, some, none, List, [], ◌∷◌, if◌then◌else◌, Bool-cases, inl, inr,
}
use new_builders_stream.Prelude.Int.{◌-ℤ◌, leb_ℤ}
use new_builders_stream.Prelude.Table.{update_where}
use new_builders_stream.Money.{quantize_cents}
use new_builders_stream.Models.{
  Db, Session, CurrentUser, Invoice, InvoiceStatus, InvoicePayment, AuditLog, uuid, decimal, day,
}
use new_builders_stream.Core.Exec.{ok, err, server_error, conflict, resume, or_raise}
use new_builders_stream.Core.Audit.{write_audit_log}
use new_builders_stream.Core.Sync.Laws.{publish_record-eq, payment}
use new_builders_stream.Billing.Invoices.{
  InvoicePaymentCreateRequest, invoice_row, lock_invoice, takes_payment, paid_amount, settle,
  set_status, record_locked_payment,
}

unfoldable pub settled_invoices : Session → Invoice → Db → List Invoice
settled_invoices session inv db =
    if leb_ℤ inv.amount (paid_amount session inv.id db)
    then update_where (λ r. r.id == inv.id) (set_status InvoiceStatus.paid) db.invoices
    else db.invoices

settle-eq :
    (current : CurrentUser) (inv : Invoice) (db : Db)
    → settle current inv db
      ≡ (ok tt, record db { invoices = settled_invoices current.session inv db })
unfolding settle settled_invoices
settle-eq current inv db =
    elim (Bool-cases (leb_ℤ inv.amount (paid_amount current.session inv.id db))) [
      | inl e ↦ rw e
      | inr e ↦ rw e
    ]

module _ (current : CurrentUser) (body : InvoicePaymentCreateRequest) (db : Db) where
  -- The row that a payment on `inv` inserts.
  abbrev pub new_payment : Invoice → InvoicePayment
  new_payment inv = record {
    id = db.next_id;
    invoice_id = inv.id;
    company_id = inv.company_id;
    amount = quantize_cents body.amount;
    paid_date = body.paid_date;
    recorded_by = current.user_id;
  }

  abbrev pub payment_audit : Invoice → AuditLog
  payment_audit inv = record {
    company_id = inv.company_id;
    actor_id = some current.user_id;
    action = "invoice.payment_recorded";
    entity_type = "invoice";
    entity_id = inv.id;
    log_metadata =
        ("payment_id", uuid db.next_id)
        ∷ ("amount", decimal body.amount)
        ∷ ("paid_date", day body.paid_date)
        ∷ [];
  }

  -- After the insert, before the status is written.
  abbrev pub with_payment : Invoice → Db
  with_payment inv = record db {
    invoice_payments = new_payment inv ∷ db.invoice_payments;
    next_id = db.next_id + 1;
  }

  pub locked_payment_accepted :
      (inv row : Invoice)
      → invoice_row current.session inv.id db ≡ some row
      → takes_payment inv.status ≡ true
      → leb_ℤ (quantize_cents body.amount) (inv.amount -ℤ paid_amount current.session inv.id db)
        ≡ true
      → let (r, db') = record_locked_payment current inv body db in
        (r ≡ ok (new_payment inv))
        × (db'.invoices ≡ settled_invoices current.session inv (with_payment inv))
        × (db'.invoice_payments ≡ new_payment inv ∷ db.invoice_payments)
        × (db'.next_id ≡ db.next_id + 1)
        × (db'.audit_log ≡ payment_audit inv ∷ db.audit_log)
  unfolding record_locked_payment lock_invoice write_audit_log
  locked_payment_accepted inv row here takes fits =
      rw (here, or_raise, takes, fits, settle-eq, resume, publish_record-eq, payment)
        (refl, refl, refl, refl, refl)

  -- The lock finds no row: the request fails.
  pub locked_payment_missing :
      (inv : Invoice)
      → invoice_row current.session inv.id db ≡ none
      → record_locked_payment current inv body db
        ≡ (err (server_error "No row was found when one was required"), db)
  unfolding record_locked_payment lock_invoice
  locked_payment_missing inv row = rw (row, or_raise)

  -- A draft, void or paid invoice, and a payment above the remaining balance, are refused.
  pub locked_payment_refused :
      (inv row : Invoice)
      → invoice_row current.session inv.id db ≡ some row
      → takes_payment inv.status ≡ false
      → record_locked_payment current inv body db
        ≡ (err (conflict "Cannot record a payment against this invoice"), db)
  unfolding record_locked_payment lock_invoice
  locked_payment_refused inv row here takes = rw (here, or_raise, takes)

  pub locked_payment_exceeds :
      (inv row : Invoice)
      → invoice_row current.session inv.id db ≡ some row
      → takes_payment inv.status ≡ true
      → leb_ℤ (quantize_cents body.amount) (inv.amount -ℤ paid_amount current.session inv.id db)
        ≡ false
      → record_locked_payment current inv body db
        ≡ (err (conflict "Payment amount exceeds the invoice's remaining balance"), db)
  unfolding record_locked_payment lock_invoice
  locked_payment_exceeds inv row here takes fits = rw (here, or_raise, takes, fits)
