-- ===== src/Billing/Invoices/Recorded.antt =====
-- `record_invoice_payment` of backend/app/routers/invoices.py: the whole request, with no other one
-- between its read of the invoice and the row lock.
use mathlib.Core.Path.{subst}
use new_builders_stream.Prelude.{
  ℕ, ◌≡◌, refl, sym, ap, ◌∙◌, Bool, true, false, ◌&&◌, ◌==◌, Option, some, none, ◌∷◌, if◌then◌else◌,
  Bool-cases, inl, inr, ==_iff,
}
use new_builders_stream.Prelude.Int.{ℤ, ◌+ℤ◌, ◌-ℤ◌, ◌≤ℤ◌, leb_ℤ, leb_ℤ→le, int_laws}
use new_builders_stream.Prelude.Table.{find, find_key}
use new_builders_stream.Money.{is_positive, quantize_cents}
use new_builders_stream.Models.{Db, Session, CurrentUser, Invoice, InvoicePayment, accounting}
use new_builders_stream.Core.Exec.{Result, ok}
use new_builders_stream.Core.Exec.Reads.{after_read-eq-ok, require-ok}
use new_builders_stream.Core.Access.{post, authorize_module}
use new_builders_stream.Core.Access.Laws.{authorize_module-Reads}
use new_builders_stream.Billing.Invoices.{
  InvoicePaymentCreateRequest, write_roles, invoice_row, get_invoice_or_404, takes_payment,
  paid_amount, record_locked_payment, record_invoice_payment,
}
use new_builders_stream.Billing.Invoices.Books.{invoice_row-find, paid_off}
use new_builders_stream.Billing.Invoices.Payment.{
  new_payment, with_payment, locked_payment_accepted, locked_payment_refused,
  locked_payment_exceeds,
}
use new_builders_stream.Billing.Invoices.Safe.{find-settled}
use new_builders_stream.Billing.Invoices.Routes.{get_invoice_or_404-Reads, get_invoice_or_404-row}

-- The sum of the payments after one more.
paid_amount-with_payment :
    (current : CurrentUser) (body : InvoicePaymentCreateRequest) (inv : Invoice) (db : Db)
    → current.session.visible inv.company_id ≡ true
    → paid_amount current.session inv.id (with_payment current body db inv)
      ≡ quantize_cents body.amount +ℤ paid_amount current.session inv.id db
unfolding paid_amount
paid_amount-with_payment current body inv db seen =
    let own : (inv.id == inv.id) ≡ true = (==_iff inv.id inv.id).1 refl in rw (seen, own) refl

same_payments :
    (session : Session) (j : ℕ) (x y : Db)
    → x.invoice_payments ≡ y.invoice_payments
    → paid_amount session j x ≡ paid_amount session j y
unfolding paid_amount
same_payments session j x y q = rw q refl

module _ (current : CurrentUser) (i : ℕ) (body : InvoicePaymentCreateRequest) (db : Db) where
  -- The invoice exists, takes payments and has room for the amount.
  unfoldable pub acceptable : Bool
  acceptable = elim (invoice_row current.session i db) [
    | none ↦ false
    | some inv ↦
        takes_payment inv.status
        && leb_ℤ (quantize_cents body.amount) (inv.amount -ℤ paid_amount current.session inv.id db)
  ]

  own_row :
      (inv : Invoice)
      → invoice_row current.session i db ≡ some inv
      → (inv.id ≡ i) × (invoice_row current.session inv.id db ≡ some inv)
  own_row inv row =
      let (found, _) = invoice_row-find current.session i inv db row in
      let same = find_key (λ r. r.id) i inv db.invoices found in
      (same, subst (λ t. invoice_row current.session t db ≡ some inv) (sym same) row)

  -- What holds of an invoice whose payment from the lock on returned.
  locked-eq-ok :
      (inv : Invoice) (p : InvoicePayment) (db' : Db)
      → invoice_row current.session inv.id db ≡ some inv
      → record_locked_payment current inv body db ≡ (ok p, db')
      → (takes_payment inv.status ≡ true)
        × (leb_ℤ (quantize_cents body.amount) (inv.amount -ℤ paid_amount current.session inv.id db)
            ≡ true)
  locked-eq-ok inv p db' here h = elim (Bool-cases (takes_payment inv.status)) [
    | inr takes ↦ absurd (cc (sym (locked_payment_refused current body db inv inv here takes) ∙ h))
    | inl takes ↦
        elim (Bool-cases (
          leb_ℤ (quantize_cents body.amount)
            (inv.amount -ℤ paid_amount current.session inv.id db))) [
              | inl fits ↦ (takes, fits)
              | inr fits ↦
                  absurd
                    (cc (sym (locked_payment_exceeds current body db inv inv here takes fits) ∙ h))
            ]
  ]

  -- When record_invoice_payment returns a payment, the amount was positive and the invoice was neither
  -- a draft nor void nor paid; the payment is of the amount in cents, for the invoice and with its
  -- company, and stands before the earlier ones; with it no more than the amount of the invoice is
  -- paid, and the row of the invoice has the status paid if all of it is, and is unchanged if not.
  pub record_invoice_payment_lem :
      (p : InvoicePayment) (db' : Db)
      → record_invoice_payment current i body db ≡ (ok p, db')
      → (inv : Invoice) × (invoice_row current.session i db ≡ some inv)
        × (is_positive body.amount ≡ true)
        × (takes_payment inv.status ≡ true)
        × (p.invoice_id ≡ i)
        × (p.company_id ≡ inv.company_id)
        × (p.amount ≡ quantize_cents body.amount)
        × (db'.invoice_payments ≡ p ∷ db.invoice_payments)
        × (paid_amount current.session i db' ≤ℤ inv.amount)
        × (find (λ r. r.id) i db'.invoices
            ≡ some (paid_off inv (paid_amount current.session i db')))
  unfolding record_invoice_payment
  record_invoice_payment_lem p db' h =
      let (_, _, h1) =
        after_read-eq-ok (authorize_module current write_roles post accounting) _ db
          (authorize_module-Reads _ _ _ _) h in
      let (positive, h2) = require-ok (is_positive body.amount) _ _ db h1 in
      let (inv, got, h3) =
        after_read-eq-ok (get_invoice_or_404 current i) _ db (get_invoice_or_404-Reads _ _) h2 in
      let row = get_invoice_or_404-row current i inv db got in
      let (same, here) = own_row inv row in
      let (found, seen) = invoice_row-find current.session inv.id inv db here in
      let (takes, fits) = locked-eq-ok inv p db' here h3 in
      let (e_ret, e_inv, e_pay, _, _) =
        locked_payment_accepted current body db inv inv here takes fits in
      let made : new_payment current body db inv ≡ p =
        ok_injective (sym e_ret ∙ ap (λ (x : Result InvoicePayment × Db). x.0) h3) in
      let left = sym (ap (λ (x : Result InvoicePayment × Db). x.1) h3) in
      let payments : db'.invoice_payments ≡ p ∷ db.invoice_payments =
        ap (λ (x : Db). x.invoice_payments) left
        ∙ e_pay
        ∙ ap (λ (x : InvoicePayment). x ∷ db.invoice_payments) made in
      let total = paid_amount-with_payment current body inv db seen in
      let sum : paid_amount current.session inv.id db'
          ≡ paid_amount current.session inv.id (with_payment current body db inv) =
        same_payments current.session inv.id db' (with_payment current body db inv)
          (ap (λ (x : Db). x.invoice_payments) left ∙ e_pay) in
      (
        inv,
        row,
        positive,
        takes,
        ap (λ (x : InvoicePayment). x.invoice_id) (sym made) ∙ same,
        ap (λ (x : InvoicePayment). x.company_id) (sym made),
        ap (λ (x : InvoicePayment). x.amount) (sym made),
        payments,
        subst (λ t. paid_amount current.session t db' ≤ℤ inv.amount) same
            (rw (sum ∙ total) (
              room (quantize_cents body.amount) (paid_amount current.session inv.id db) inv.amount (
                leb_ℤ→le (quantize_cents body.amount)
                  (inv.amount -ℤ paid_amount current.session inv.id db) fits))),
        subst
            (λ t.
              find (λ r. r.id) t db'.invoices
              ≡ some (paid_off inv (paid_amount current.session t db')))
            same
            (ap (λ (x : Db). find (λ r. r.id) inv.id x.invoices) left
              ∙ ap (find (λ (r : Invoice). r.id) inv.id) e_inv
              ∙ find-settled current.session inv inv (paid_amount current.session inv.id db') inv.id
                  (with_payment current body db inv) found refl (sym sum)
              ∙ here_id (paid_off inv (paid_amount current.session inv.id db')) inv.id _),
      )
    where
      ok_injective : {a b : InvoicePayment} → ◌≡◌ {A = Result InvoicePayment} (ok a) (ok b) → a ≡ b
      ok_injective q = cc

      room : (a paid total : ℤ) → a ≤ℤ total -ℤ paid → a +ℤ paid ≤ℤ total
      room a paid total h = omega int_laws

      here_id : (r : Invoice) (j : ℕ) (o : Option Invoice) → (if j == j then some r else o) ≡ some r
      here_id r j o = let own : (j == j) ≡ true = (==_iff j j).1 refl in rw own refl
