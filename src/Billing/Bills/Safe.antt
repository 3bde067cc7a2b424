-- ===== src/Billing/Bills/Safe.antt =====
-- The locked part of `record_bill_payment` and the books.
use new_builders_stream.Prelude.{
  ℕ, ◌≡◌, refl, sym, ◌∙◌, true, ◌==◌, some, List, if◌then◌else◌, Option-cases, Bool-cases, inl, inr,
  ==_iff,
}
use mathlib.Core.Path.{subst}
use new_builders_stream.Prelude.Int.{ℤ, ◌+ℤ◌, ◌-ℤ◌, leb_ℤ, leb_ℤ→le}
use new_builders_stream.Prelude.Table.{find}
use new_builders_stream.Money.{is_positive, quantize_cents}
use new_builders_stream.Money.Rounding.{quantize_nonneg}
use new_builders_stream.Models.{Db, Session, CurrentUser, Bill, BillStatus}
use new_builders_stream.Billing.Bills.{
  BillPaymentCreateRequest, bill_row, takes_payment, paid_amount, record_locked_payment,
}
use new_builders_stream.Billing.Ledger.{paid_of, Owned, Settled-pay}
use new_builders_stream.Billing.Ledger.Sound.{
  find-update_own, IsSound-pay, Owned-self, paid_of-cons_self,
}
use new_builders_stream.Billing.Bills.Books.{
  bill_kind, BillsSound, ReadBefore, paid_amount-eq-paid_of, paid_off, paid_off_keeps,
  paid_off_status,
}
use new_builders_stream.Billing.Bills.Payment.{
  settled_bills, new_payment, with_payment, locked_payment_accepted, locked_payment_missing,
  locked_payment_refused, locked_payment_exceeds,
}

find_self :
    (row : Bill) (i j : ℕ) (bills : List Bill)
    → find (λ r. r.id) i bills ≡ some row
    → find (λ r. r.id) j bills ≡ (if i == j then some row else find (λ r. r.id) j bills)
find_self row i j bills h = elim (Bool-cases (i == j)) [
  | inl e ↦ rw e (subst (λ t. find (λ r. r.id) t bills ≡ some row) ((==_iff i j).0 e) h)
  | inr e ↦ rw e
]

-- The table after an accepted payment, whether or not the status was written.
pub find-settled :
    (session : Session) (read row : Bill) (total : ℤ) (j : ℕ) (db : Db)
    → find (λ r. r.id) read.id db.bills ≡ some row
    → read.amount ≡ row.amount
    → paid_amount session read.id db ≡ total
    → find (λ r. r.id) j (settled_bills session read db)
      ≡ (if read.id == j then some (paid_off row total) else find (λ r. r.id) j db.bills)
unfolding settled_bills paid_off
find-settled session read row total j db h same t = elim (Bool-cases (leb_ℤ row.amount total)) [
  | inl e ↦
      rw (t, same, e)
        (find-update_own (λ r. r.id) (λ r. record r { status = BillStatus.paid }) row read.id j
          db.bills (λ r. refl) h)
  | inr e ↦ rw (t, same, e) (find_self row read.id j db.bills h)
]

module _ (current : CurrentUser) (body : BillPaymentCreateRequest) (db : Db) where
  accepted-BillsSound :
      (read locked : Bill)
      → BillsSound db
      → is_positive body.amount ≡ true
      → ReadBefore current.session read db
      → bill_row current.session read.id db ≡ some locked
      → takes_payment read.status ≡ true
      → leb_ℤ (quantize_cents body.amount) (read.amount -ℤ paid_amount current.session read.id db)
        ≡ true
      → BillsSound (record_locked_payment current read body db).1
  accepted-BillsSound read locked s positive b here takes fits =
      let owned : Owned bill_kind read.id read.company_id db.bill_payments =
        rw (b.company) (s.owned read.id b.row b.found) in
      let payment = new_payment current body db read in
      let paid = paid_of bill_kind read.id db.bill_payments in
      let before = paid_amount-eq-paid_of current.session read.id read.company_id db b.seen owned in
      let after =
        paid_amount-eq-paid_of current.session read.id read.company_id
          (with_payment current body db read) b.seen
          (Owned-self bill_kind read.id read.company_id payment db.bill_payments refl owned)
        ∙ paid_of-cons_self bill_kind read.id payment db.bill_payments refl in
      let (_, e_inv, e_pay, e_next, _) =
        locked_payment_accepted current body db read locked here takes fits in
      let total = payment.amount +ℤ paid in
      let keeps = paid_off_keeps b.row total in
      let room : leb_ℤ payment.amount (b.row.amount -ℤ paid) ≡ true =
        subst (λ t. leb_ℤ payment.amount (t -ℤ paid) ≡ true) b.amount (rw before at fits) in
      rw (e_inv, e_pay, e_next)
        (IsSound-pay bill_kind s read.id b.row (paid_off b.row total) payment
          (settled_bills current.session read (with_payment current body db read)) b.found
          (λ j.
            find-settled current.session read b.row total j (with_payment current body db read)
              b.found b.amount after)
          (keeps.0) refl (b.company ∙ sym keeps.0)
          (Settled-pay bill_kind b.row (paid_off b.row total) payment.amount paid
            (s.settled read.id b.row b.found) (keeps.1) (paid_off_status b.row total)
            (quantize_nonneg body.amount positive)
            (leb_ℤ→le payment.amount (b.row.amount -ℤ paid) room)))

  -- A payment from its row lock on, whatever other requests committed after its first read.
  pub record_locked_payment-BillsSound :
      (read : Bill)
      → BillsSound db
      → is_positive body.amount ≡ true
      → ReadBefore current.session read db
      → BillsSound (record_locked_payment current read body db).1
  record_locked_payment-BillsSound read s positive b =
      elim (Option-cases (bill_row current.session read.id db)) [
        | inl row ↦ rw (locked_payment_missing current body db read row) s
        | inr (row, here) ↦ elim (Bool-cases (takes_payment read.status)) [
          | inr takes ↦ rw (locked_payment_refused current body db read row here takes) s
          | inl takes ↦
              elim (Bool-cases (
                leb_ℤ (quantize_cents body.amount)
                  (read.amount -ℤ paid_amount current.session read.id db))) [
                    | inr fits ↦
                        rw (locked_payment_exceeds current body db read row here takes fits) s
                    | inl fits ↦ accepted-BillsSound read row s positive b here takes fits
                  ]
        ]
      ]
