-- ===== src/Billing/Invoices/Safe.antt =====
-- The locked part of `record_invoice_payment` and the books.
use new_builders_stream.Prelude.{
  ℕ, ◌≡◌, refl, sym, ◌∙◌, true, ◌==◌, some, List, if◌then◌else◌, Option-cases, Bool-cases, inl, inr,
  ==_iff,
}
use mathlib.Core.Path.{subst}
use new_builders_stream.Prelude.Int.{ℤ, ◌+ℤ◌, ◌-ℤ◌, leb_ℤ, leb_ℤ→le}
use new_builders_stream.Prelude.Table.{find}
use new_builders_stream.Money.{is_positive, quantize_cents}
use new_builders_stream.Money.Rounding.{quantize_nonneg}
use new_builders_stream.Models.{Db, Session, CurrentUser, Invoice, InvoiceStatus}
use new_builders_stream.Billing.Invoices.{
  InvoicePaymentCreateRequest, invoice_row, takes_payment, paid_amount, set_status,
  record_locked_payment,
}
use new_builders_stream.Billing.Ledger.{paid_of, Owned, Settled-pay}
use new_builders_stream.Billing.Ledger.Sound.{
  find-update_own, IsSound-pay, Owned-self, paid_of-cons_self,
}
use new_builders_stream.Billing.Invoices.Books.{
  invoice_kind, BooksSound, ReadBefore, paid_amount-eq-paid_of, paid_off, paid_off_keeps,
  paid_off_status,
}
use new_builders_stream.Billing.Invoices.Payment.{
  settled_invoices, new_payment, with_payment, locked_payment_accepted, locked_payment_missing,
  locked_payment_refused, locked_payment_exceeds,
}

find_self :
    (row : Invoice) (i j : ℕ) (invoices : List Invoice)
    → find (λ r. r.id) i invoices ≡ some row
    → find (λ r. r.id) j invoices ≡ (if i == j then some row else find (λ r. r.id) j invoices)
find_self row i j invoices h = elim (Bool-cases (i == j)) [
  | inl e ↦ rw e (subst (λ t. find (λ r. r.id) t invoices ≡ some row) ((==_iff i j).0 e) h)
  | inr e ↦ rw e
]

-- The table after an accepted payment, whether or not the status was written.
pub find-settled :
    (session : Session) (read row : Invoice) (total : ℤ) (j : ℕ) (db : Db)
    → find (λ r. r.id) read.id db.invoices ≡ some row
    → read.amount ≡ row.amount
    → paid_amount session read.id db ≡ total
    → find (λ r. r.id) j (settled_invoices session read db)
      ≡ (if read.id == j then some (paid_off row total) else find (λ r. r.id) j db.invoices)
unfolding settled_invoices paid_off
find-settled session read row total j db h same t = elim (Bool-cases (leb_ℤ row.amount total)) [
  | inl e ↦
      rw (t, same, e)
        (find-update_own (λ r. r.id) (set_status InvoiceStatus.paid) row read.id j db.invoices
          (λ r. refl) h)
  | inr e ↦ rw (t, same, e) (find_self row read.id j db.invoices h)
]

module _ (current : CurrentUser) (body : InvoicePaymentCreateRequest) (db : Db) where
  accepted-BooksSound :
      (read locked : Invoice)
      → BooksSound db
      → is_positive body.amount ≡ true
      → ReadBefore current.session read db
      → invoice_row current.session read.id db ≡ some locked
      → takes_payment read.status ≡ true
      → leb_ℤ (quantize_cents body.amount) (read.amount -ℤ paid_amount current.session read.id db)
        ≡ true
      → BooksSound (record_locked_payment current read body db).1
  accepted-BooksSound read locked s positive b here takes fits =
      let owned : Owned invoice_kind read.id read.company_id db.invoice_payments =
        rw (b.company) (s.owned read.id b.row b.found) in
      let payment = new_payment current body db read in
      let paid = paid_of invoice_kind read.id db.invoice_payments in
      let before = paid_amount-eq-paid_of current.session read.id read.company_id db b.seen owned in
      let after =
        paid_amount-eq-paid_of current.session read.id read.company_id
          (with_payment current body db read) b.seen
          (Owned-self invoice_kind read.id read.company_id payment db.invoice_payments refl owned)
        ∙ paid_of-cons_self invoice_kind read.id payment db.invoice_payments refl in
      let (_, e_inv, e_pay, e_next, _) =
        locked_payment_accepted current body db read locked here takes fits in
      let total = payment.amount +ℤ paid in
      let keeps = paid_off_keeps b.row total in
      let room : leb_ℤ payment.amount (b.row.amount -ℤ paid) ≡ true =
        subst (λ t. leb_ℤ payment.amount (t -ℤ paid) ≡ true) b.amount (rw before at fits) in
      rw (e_inv, e_pay, e_next)
        (IsSound-pay invoice_kind s read.id b.row (paid_off b.row total) payment
          (settled_invoices current.session read (with_payment current body db read)) b.found
          (λ j.
            find-settled current.session read b.row total j (with_payment current body db read)
              b.found b.amount after)
          (keeps.0) refl (b.company ∙ sym keeps.0)
          (Settled-pay invoice_kind b.row (paid_off b.row total) payment.amount paid
            (s.settled read.id b.row b.found) (keeps.1) (paid_off_status b.row total)
            (quantize_nonneg body.amount positive)
            (leb_ℤ→le payment.amount (b.row.amount -ℤ paid) room)))

  -- A payment from its row lock on, whatever other requests committed after its first read.
  pub record_locked_payment-BooksSound :
      (read : Invoice)
      → BooksSound db
      → is_positive body.amount ≡ true
      → ReadBefore current.session read db
      → BooksSound (record_locked_payment current read body db).1
  record_locked_payment-BooksSound read s positive b =
      elim (Option-cases (invoice_row current.session read.id db)) [
        | inl row ↦ rw (locked_payment_missing current body db read row) s
        | inr (row, here) ↦ elim (Bool-cases (takes_payment read.status)) [
          | inr takes ↦ rw (locked_payment_refused current body db read row here takes) s
          | inl takes ↦
              elim (Bool-cases (
                leb_ℤ (quantize_cents body.amount)
                  (read.amount -ℤ paid_amount current.session read.id db))) [
                    | inr fits ↦
                        rw (locked_payment_exceeds current body db read row here takes fits) s
                    | inl fits ↦ accepted-BooksSound read row s positive b here takes fits
                  ]
        ]
      ]
