-- ===== src/Billing/Invoices/Numbers.antt =====
-- `next_invoice_number`: the numbers of a company's invoices.
use new_builders_stream.Prelude.{
  ℕ, ◌+◌, ◌≤◌, ◌<◌, ◌≡◌, refl, ap, sym, ◌∙◌, true, ◌&&◌, ◌==◌, List, [], ◌∷◌, arith, All, length,
  Bool-cases, inl, inr,
}
use new_builders_stream.Prelude.Table.{count_where, select}
use new_builders_stream.Models.{Db, Session, Invoice, InvoiceNumber}
use new_builders_stream.Core.Exec.{Result, ok}
use new_builders_stream.Billing.Invoices.{next_invoice_number}

unfoldable pub invoices_of : ℕ → List Invoice → List Invoice
unfolding select
invoices_of c invoices = select (λ r. r.company_id == c) invoices

-- No invoice of the company has a sequence above the number of its invoices.
unfoldable pub Numbered : ℕ → List Invoice → Type 0
Numbered c invoices =
    All (λ (r : Invoice). r.invoice_number.sequence ≤ length (invoices_of c invoices))
      (invoices_of c invoices)

visible_count :
    (session : Session) (c : ℕ) (invoices : List Invoice)
    → session.visible c ≡ true
    → count_where (λ r. session.visible r.company_id && r.company_id == c) invoices
      ≡ length (invoices_of c invoices)
unfolding invoices_of count_where
visible_count session c [] v = refl
visible_count session c (r ∷ rs) v = ground (arith, visible_count session c rs v)

next_invoice_number-eq :
    (session : Session) (c : ℕ) (db : Db)
    → session.visible c ≡ true
    → next_invoice_number session c db
      ≡ (ok (record { year = session.year; sequence = length (invoices_of c db.invoices) + 1 }), db)
unfolding next_invoice_number
next_invoice_number-eq session c db v = rw (visible_count session c db.invoices v)

All-le :
    (n m : ℕ) (rows : List Invoice)
    → n ≤ m
    → All (λ (r : Invoice). r.invoice_number.sequence ≤ n) rows
    → All (λ (r : Invoice). r.invoice_number.sequence ≤ m) rows
All-le n m [] e h = tt
All-le n m (r ∷ rows) e h = (omega arith, All-le n m rows e h.1)

All-below :
    (n m : ℕ) (rows : List Invoice)
    → n + 1 ≡ m
    → All (λ (r : Invoice). r.invoice_number.sequence ≤ n) rows
    → All (λ (r : Invoice). r.invoice_number.sequence < m) rows
All-below n m [] e h = tt
All-below n m (r ∷ rows) e h = (omega arith, All-below n m rows e h.1)

Numbered-cons :
    (k : ℕ) (r : Invoice) (rows : List Invoice)
    → r.invoice_number.sequence ≤ length (invoices_of r.company_id rows) + 1
    → Numbered k rows
    → Numbered k (r ∷ rows)
unfolding Numbered invoices_of
Numbered-cons k r rows bound h = elim (Bool-cases (r.company_id == k)) [
  | inl own ↦
      let same : r.company_id ≡ k = ground arith in
      rw own (
        omega (arith, rw same at bound),
        All-le (length (invoices_of k rows)) _ (invoices_of k rows) (omega arith) h,
      )
  | inr other ↦ rw other h
]

-- If no invoice of a company has a sequence above the number of its invoices, and row-level
-- security shows the company, then the number that `next_invoice_number` gives has the session's
-- year and a sequence above that of each invoice of the company; and once an invoice of the company
-- takes it, no company has an invoice with a sequence above the number of its invoices, if none had
-- before.
pub next_invoice_number-fresh :
    (session : Session) (c k : ℕ) (db : Db) (inv : Invoice)
    → session.visible c ≡ true
    → Numbered c db.invoices
    → Numbered k db.invoices
    → inv.company_id ≡ c
    → next_invoice_number session c db ≡ (ok inv.invoice_number, db)
    → (inv.invoice_number.year ≡ session.year)
      × All
          (λ (r : Invoice). r.invoice_number.sequence < inv.invoice_number.sequence)
          (invoices_of c db.invoices)
      × Numbered k (inv ∷ db.invoices)
unfolding Numbered
next_invoice_number-fresh session c k db inv v h hk own got =
    let number = number_of (sym (next_invoice_number-eq session c db v) ∙ got) in
    let sequence = ap (λ (n : InvoiceNumber). n.sequence) number in
    (
      sym (ap (λ (n : InvoiceNumber). n.year) number),
      All-below (length (invoices_of c db.invoices)) _ (invoices_of c db.invoices) sequence h,
      Numbered-cons k inv db.invoices (rw own (omega (arith, sequence))) hk,
    )
  where
    number_of :
        {a b : InvoiceNumber} {x : Db}
        → ◌≡◌ {A = Result InvoiceNumber × Db} (ok a, x) (ok b, x)
        → a ≡ b
    number_of h = cc
