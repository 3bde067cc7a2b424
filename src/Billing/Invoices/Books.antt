-- ===== src/Billing/Invoices/Books.antt =====
-- Invoices and their payments as a ledger.
use new_builders_stream.Prelude.{ℕ, ◌≡◌, refl, sym, true, ◌||◌, some, arith, if◌then◌else◌}
use new_builders_stream.Prelude.Int.{ℤ, leb_ℤ}
use new_builders_stream.Prelude.Table.{find, find_key}
use mathlib.Core.Path.{subst}
use new_builders_stream.Models.{Db, Session, Invoice, InvoiceStatus, InvoicePayment}
use new_builders_stream.Core.Lookup.Laws.{visible_row-find}
use new_builders_stream.Billing.Ledger.{Kind, paid_of, Owned, IsSound}
use new_builders_stream.Billing.Ledger.Visible.{visible_sum-eq-paid_of}
use new_builders_stream.Billing.Invoices.{is_paid, invoice_row, paid_amount}

abbrev pub invoice_kind : Kind Invoice InvoicePayment
invoice_kind = record {
  id_of = λ r. r.id;
  company_of = λ r. r.company_id;
  amount_of = λ r. r.amount;
  is_paid = λ r. is_paid r.status;
  document = λ p. p.invoice_id;
  owner = λ p. p.company_id;
  value = λ p. p.amount;
}

-- The invoices and payments of a database are sound.
abbrev pub BooksSound : Db → Type 0
BooksSound db = IsSound invoice_kind db.invoices db.invoice_payments db.next_id

-- A row that a route reads stands in the table, and its company is visible.
pub invoice_row-find :
    (session : Session) (i : ℕ) (inv : Invoice) (db : Db)
    → invoice_row session i db ≡ some inv
    → (find (λ r. r.id) i db.invoices ≡ some inv) × (session.visible inv.company_id ≡ true)
unfolding invoice_row
invoice_row-find session i inv db h =
    visible_row-find session (λ r. r.id) (λ r. r.company_id) i inv db.invoices h

-- The sum that a route reads is the sum of all payments of a visible invoice.
pub paid_amount-eq-paid_of :
    (session : Session) (i c : ℕ) (db : Db)
    → session.visible c ≡ true
    → Owned invoice_kind i c db.invoice_payments
    → paid_amount session i db ≡ paid_of invoice_kind i db.invoice_payments
unfolding paid_amount
paid_amount-eq-paid_of session i c db v h =
    visible_sum-eq-paid_of invoice_kind session.visible i c db.invoice_payments v h

-- The invoice after a payment that brings the sum to `total`.
unfoldable pub paid_off : Invoice → ℤ → Invoice
paid_off inv total =
    if leb_ℤ inv.amount total then record inv { status = InvoiceStatus.paid } else inv

pub paid_off_keeps :
    (inv : Invoice) (total : ℤ)
    → ((paid_off inv total).company_id ≡ inv.company_id)
      × ((paid_off inv total).amount ≡ inv.amount)
unfolding paid_off
paid_off_keeps inv total = ground arith

pub paid_off_status :
    (inv : Invoice) (total : ℤ)
    → is_paid (paid_off inv total).status ≡ (leb_ℤ inv.amount total || is_paid inv.status)
unfolding paid_off is_paid
paid_off_status inv total = ground arith

-- An invoice that a session has read earlier: its status and its due date may have changed since; no
-- request changes its company and its amount, or deletes it.
pub record ReadBefore (session : Session) (read : Invoice) (db : Db) : Type 0 where
  pub row : Invoice
  pub found : find (λ r. r.id) read.id db.invoices ≡ some row
  pub seen : session.visible read.company_id ≡ true
  pub company : read.company_id ≡ row.company_id
  pub amount : read.amount ≡ row.amount

-- It is so for one that was read just now.
pub read_now :
    (session : Session) (i : ℕ) (inv : Invoice) (db : Db)
    → invoice_row session i db ≡ some inv
    → ReadBefore session inv db
read_now session i inv db h =
    let (found, seen) = invoice_row-find session i inv db h in
    record {
      row = inv;
      found =
          subst (λ t. find (λ r. r.id) t db.invoices ≡ some inv)
            (sym (find_key (λ r. r.id) i inv db.invoices found)) found;
      seen = seen;
      company = refl;
      amount = refl;
    }
