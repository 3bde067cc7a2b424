-- ===== src/Billing/Bills/Payment.antt =====
-- `record_bill_payment`: what an accepted payment writes, and when one is refused.
use new_builders_stream.Prelude.{
  ◌+◌, ◌==◌, ◌≡◌, refl, true, false, some, none, List, [], ◌∷◌, if◌then◌else◌, Bool-cases, inl, inr,
}
use new_builders_stream.Prelude.Int.{◌-ℤ◌, leb_ℤ}
use new_builders_stream.Prelude.Table.{update_where}
use new_builders_stream.Money.{quantize_cents}
use new_builders_stream.Models.{
  Db, Session, CurrentUser, Bill, BillStatus, BillPayment, AuditLog, uuid, decimal, day,
}
use new_builders_stream.Core.Exec.{ok, err, server_error, conflict, resume, or_raise}
use new_builders_stream.Core.Audit.{write_audit_log}
use new_builders_stream.Billing.Bills.{
  BillPaymentCreateRequest, bill_row, lock_bill, takes_payment, paid_amount, settle,
  record_locked_payment,
}

unfoldable pub settled_bills : Session → Bill → Db → List Bill
settled_bills session bill db =
    if leb_ℤ bill.amount (paid_amount session bill.id db)
    then update_where (λ r. r.id == bill.id) (λ r. record r { status = BillStatus.paid }) db.bills
    else db.bills

settle-eq :
    (current : CurrentUser) (bill : Bill) (db : Db)
    → settle current bill db ≡ (ok tt, record db { bills = settled_bills current.session bill db })
unfolding settle settled_bills
settle-eq current bill db =
    elim (Bool-cases (leb_ℤ bill.amount (paid_amount current.session bill.id db))) [
      | inl e ↦ rw e
      | inr e ↦ rw e
    ]

module _ (current : CurrentUser) (body : BillPaymentCreateRequest) (db : Db) where
  -- The row that a payment on `bill` inserts.
  abbrev pub new_payment : Bill → BillPayment
  new_payment bill = record {
    id = db.next_id;
    bill_id = bill.id;
    company_id = bill.company_id;
    amount = quantize_cents body.amount;
    paid_date = body.paid_date;
    recorded_by = current.user_id;
  }

  abbrev pub payment_audit : Bill → AuditLog
  payment_audit bill = record {
    company_id = bill.company_id;
    actor_id = some current.user_id;
    action = "bill.payment_recorded";
    entity_type = "bill";
    entity_id = bill.id;
    log_metadata =
        ("payment_id", uuid db.next_id)
        ∷ ("amount", decimal body.amount)
        ∷ ("paid_date", day body.paid_date)
        ∷ [];
  }

  -- After the insert, before the status is written.
  abbrev pub with_payment : Bill → Db
  with_payment bill = record db {
    bill_payments = new_payment bill ∷ db.bill_payments;
    next_id = db.next_id + 1;
  }

  pub locked_payment_accepted :
      (bill row : Bill)
      → bill_row current.session bill.id db ≡ some row
      → takes_payment bill.status ≡ true
      → leb_ℤ (quantize_cents body.amount) (bill.amount -ℤ paid_amount current.session bill.id db)
        ≡ true
      → let (r, db') = record_locked_payment current bill body db in
        (r ≡ ok (new_payment bill))
        × (db'.bills ≡ settled_bills current.session bill (with_payment bill))
        × (db'.bill_payments ≡ new_payment bill ∷ db.bill_payments)
        × (db'.next_id ≡ db.next_id + 1)
        × (db'.audit_log ≡ payment_audit bill ∷ db.audit_log)
  unfolding record_locked_payment lock_bill write_audit_log
  locked_payment_accepted bill row here takes fits =
      rw (here, or_raise, takes, fits, settle-eq, resume) (refl, refl, refl, refl, refl)

  -- The lock finds no row: the request fails.
  pub locked_payment_missing :
      (bill : Bill)
      → bill_row current.session bill.id db ≡ none
      → record_locked_payment current bill body db
        ≡ (err (server_error "No row was found when one was required"), db)
  unfolding record_locked_payment lock_bill
  locked_payment_missing bill row = rw (row, or_raise)

  -- A draft, void or paid bill, and a payment above the remaining balance, are refused.
  pub locked_payment_refused :
      (bill row : Bill)
      → bill_row current.session bill.id db ≡ some row
      → takes_payment bill.status ≡ false
      → record_locked_payment current bill body db
        ≡ (err (conflict "Cannot record a payment against this bill"), db)
  unfolding record_locked_payment lock_bill
  locked_payment_refused bill row here takes = rw (here, or_raise, takes)

  pub locked_payment_exceeds :
      (bill row : Bill)
      → bill_row current.session bill.id db ≡ some row
      → takes_payment bill.status ≡ true
      → leb_ℤ (quantize_cents body.amount) (bill.amount -ℤ paid_amount current.session bill.id db)
        ≡ false
      → record_locked_payment current bill body db
        ≡ (err (conflict "Payment amount exceeds the bill's remaining balance"), db)
  unfolding record_locked_payment lock_bill
  locked_payment_exceeds bill row here takes fits = rw (here, or_raise, takes, fits)
