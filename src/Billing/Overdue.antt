-- ===== src/Billing/Overdue.antt =====
-- backend/app/tasks/flag_overdue_financial_records.py: the daily task, over the tables of all tenants.
use new_builders_stream.Prelude.{
  ℕ, ◌≡◌, ◌<◌, ◌≤◌, ◌⊎◌, inl, inr, refl, sym, ap, ◌∙◌, Bool, true, false, ◌&&◌, ltb, List, Option,
  none, some, arith, if◌then◌else◌, Bool-cases,
}
use mathlib.Core.Option
use new_builders_stream.Prelude.Table.{find, update_where, find-update_where}
use new_builders_stream.Models.{Db, Invoice, InvoiceStatus, Bill, BillStatus}
use new_builders_stream.Billing.Ledger.Sound.{IsSound-update_where}
use new_builders_stream.Billing.Invoices
use new_builders_stream.Billing.Invoices.Books.{BooksSound, invoice_kind}
use new_builders_stream.Billing.Bills
use new_builders_stream.Billing.Bills.Books.{BillsSound, bill_kind}

-- `due_date < CURRENT_DATE`, which NULL does not satisfy.
is_past : ℕ → Option ℕ → Bool
is_past today none = false
is_past today (some day) = ltb day today

is_sent : InvoiceStatus → Bool
is_sent InvoiceStatus.sent = true
is_sent _ = false

is_unpaid : BillStatus → Bool
is_unpaid BillStatus.unpaid = true
is_unpaid _ = false

invoice_is_due : ℕ → Invoice → Bool
unfolding is_past is_sent
invoice_is_due today r = is_sent r.status && is_past today r.due_date

bill_is_due : ℕ → Bill → Bool
unfolding is_past is_unpaid
bill_is_due today r = is_unpaid r.status && is_past today r.due_date

abbrev flag_invoice : Invoice → Invoice
flag_invoice r = record r { status = InvoiceStatus.overdue }

abbrev flag_bill : Bill → Bill
flag_bill r = record r { status = BillStatus.overdue }

-- Both statements and the commit.
pub flag_overdue_financial_records : ℕ → Db → Db
unfolding update_where invoice_is_due bill_is_due
flag_overdue_financial_records today db = record db {
  invoices = update_where (invoice_is_due today) flag_invoice db.invoices;
  bills = update_where (bill_is_due today) flag_bill db.bills;
}

pub flag_overdue-BooksSound :
    (today : ℕ) (db : Db) → BooksSound db → BooksSound (flag_overdue_financial_records today db)
unfolding flag_overdue_financial_records Invoices.is_paid
flag_overdue-BooksSound today db s =
    IsSound-update_where invoice_kind s (invoice_is_due today) flag_invoice (λ d. refl) (λ d. refl)
      (λ d. refl) (λ d. refl)

pub flag_overdue-BillsSound :
    (today : ℕ) (db : Db) → BillsSound db → BillsSound (flag_overdue_financial_records today db)
unfolding flag_overdue_financial_records Bills.is_paid
flag_overdue-BillsSound today db s =
    IsSound-update_where bill_kind s (bill_is_due today) flag_bill (λ d. refl) (λ d. refl)
      (λ d. refl) (λ d. refl)

is_past-lt :
    (today : ℕ) (due : Option ℕ) → is_past today due ≡ true → (d : ℕ) × (due ≡ some d) × (d < today)
unfolding is_past
is_past-lt today none h = absurd (cc)
is_past-lt today (some d) h = (d, refl, ground arith)

is_past-ge : (today d : ℕ) → is_past today (some d) ≡ false → today ≤ d
unfolding is_past
is_past-ge today d h = ground arith

is_sent-eq : (status : InvoiceStatus) → is_sent status ≡ true → status ≡ InvoiceStatus.sent
unfolding is_sent
is_sent-eq InvoiceStatus.sent h = refl
is_sent-eq _ h = absurd (cc)

is_unpaid-eq : (status : BillStatus) → is_unpaid status ≡ true → status ≡ BillStatus.unpaid
unfolding is_unpaid
is_unpaid-eq BillStatus.unpaid h = refl
is_unpaid-eq _ h = absurd (cc)

-- A row that one of the statements has looked at.
flagged-cases :
    {A : Type 0} (key : A → ℕ) (p : A → Bool) (set : A → A) (i : ℕ) (rows : List A) (r : A)
    → ((x : A) → key (set x) ≡ key x)
    → find key i (update_where p set rows) ≡ some r
    → (old : A) × (find key i rows ≡ some old) × (r ≡ (if p old then set old else old))
flagged-cases {A} key p set i rows r keeps h =
    go (find key i rows) refl (sym (find-update_where key p set i rows keeps) ∙ h)
  where
    go :
        (o : Option A)
        → find key i rows ≡ o
        → Option.map (λ x. if p x then set x else x) o ≡ some r
        → (old : A) × (find key i rows ≡ some old) × (r ≡ (if p old then set old else old))
    go none q e = absurd (cc)
    go (some old) q e = (old, q, cc)

both : (a b : Bool) → (a && b) ≡ true → (a ≡ true) × (b ≡ true)
both a b h = ground arith

invoice_was_due :
    (today : ℕ) (x : Invoice)
    → invoice_is_due today x ≡ true
    → (x.status ≡ InvoiceStatus.sent) × (d : ℕ) × (x.due_date ≡ some d) × (d < today)
unfolding invoice_is_due
invoice_was_due today x h =
    let (s, p) = both (is_sent x.status) (is_past today x.due_date) h in
    let (d, due, before) = is_past-lt today x.due_date p in (is_sent-eq x.status s, d, due, before)

invoice_not_due :
    (today d : ℕ) (x : Invoice)
    → invoice_is_due today x ≡ false
    → x.status ≡ InvoiceStatus.sent
    → x.due_date ≡ some d
    → today ≤ d
unfolding invoice_is_due is_sent
invoice_not_due today d x h status due = is_past-ge today d (rw (status, due) at h)

-- The invoices after the task.
flagged_invoice :
    (today i : ℕ) (r : Invoice) (rows : List Invoice)
    → find (λ x. x.id) i (update_where (invoice_is_due today) flag_invoice rows) ≡ some r
    → (old : Invoice) × (find (λ x. x.id) i rows ≡ some old)
      × ((r ≡ old)
          ⊎ ((r ≡ record old { status = InvoiceStatus.overdue })
              × (old.status ≡ InvoiceStatus.sent)
              × (d : ℕ) × (old.due_date ≡ some d)
              × (d < today)))
      × ((d : ℕ) → r.status ≡ InvoiceStatus.sent → r.due_date ≡ some d → today ≤ d)
flagged_invoice today i r rows h =
    let (old, found, now) =
      flagged-cases (λ x. x.id) (invoice_is_due today) flag_invoice i rows r (λ x. refl) h in
    elim (Bool-cases (invoice_is_due today old)) [
      | inl e ↦
          let q : r ≡ flag_invoice old = rw e at now in
          let (was, d, due, before) = invoice_was_due today old e in
          (
            old,
            found,
            inr (q, was, d, due, before),
            λ _ status _.
                let impossible : InvoiceStatus.overdue ≡ InvoiceStatus.sent =
                  ap (λ (x : Invoice). x.status) (sym q) ∙ status in
                absurd (cc),
          )
      | inr e ↦
          let q : r ≡ old = rw e at now in
          (
            old,
            found,
            inl q,
            λ d status due.
                invoice_not_due today d old e (ap (λ (x : Invoice). x.status) (sym q) ∙ status)
                  (ap (λ (x : Invoice). x.due_date) (sym q) ∙ due),
          )
    ]

bill_was_due :
    (today : ℕ) (x : Bill)
    → bill_is_due today x ≡ true
    → (x.status ≡ BillStatus.unpaid) × (d : ℕ) × (x.due_date ≡ some d) × (d < today)
unfolding bill_is_due
bill_was_due today x h =
    let (s, p) = both (is_unpaid x.status) (is_past today x.due_date) h in
    let (d, due, before) = is_past-lt today x.due_date p in
    (is_unpaid-eq x.status s, d, due, before)

bill_not_due :
    (today d : ℕ) (x : Bill)
    → bill_is_due today x ≡ false
    → x.status ≡ BillStatus.unpaid
    → x.due_date ≡ some d
    → today ≤ d
unfolding bill_is_due is_unpaid
bill_not_due today d x h status due = is_past-ge today d (rw (status, due) at h)

-- The bills after the task.
flagged_bill :
    (today i : ℕ) (r : Bill) (rows : List Bill)
    → find (λ x. x.id) i (update_where (bill_is_due today) flag_bill rows) ≡ some r
    → (old : Bill) × (find (λ x. x.id) i rows ≡ some old)
      × ((r ≡ old)
          ⊎ ((r ≡ record old { status = BillStatus.overdue })
              × (old.status ≡ BillStatus.unpaid)
              × (d : ℕ) × (old.due_date ≡ some d)
              × (d < today)))
      × ((d : ℕ) → r.status ≡ BillStatus.unpaid → r.due_date ≡ some d → today ≤ d)
flagged_bill today i r rows h =
    let (old, found, now) =
      flagged-cases (λ x. x.id) (bill_is_due today) flag_bill i rows r (λ x. refl) h in
    elim (Bool-cases (bill_is_due today old)) [
      | inl e ↦
          let q : r ≡ flag_bill old = rw e at now in
          let (was, d, due, before) = bill_was_due today old e in
          (
            old,
            found,
            inr (q, was, d, due, before),
            λ _ status _.
                let impossible : BillStatus.overdue ≡ BillStatus.unpaid =
                  ap (λ (x : Bill). x.status) (sym q) ∙ status in
                absurd (cc),
          )
      | inr e ↦
          let q : r ≡ old = rw e at now in
          (
            old,
            found,
            inl q,
            λ d status due.
                bill_not_due today d old e (ap (λ (x : Bill). x.status) (sym q) ∙ status)
                  (ap (λ (x : Bill). x.due_date) (sym q) ∙ due),
          )
    ]

-- After the task of a day, a row of an invoice (of a bill) is as before, or it is overdue and was sent
-- (unpaid) with a due date before that day; and none that is still sent (unpaid) has such a due date.
pub flag_overdue_lem :
    (today : ℕ) (db : Db)
    → let db' = flag_overdue_financial_records today db in
      ((i : ℕ) (r : Invoice)
        → find (λ x. x.id) i db'.invoices ≡ some r
        → (old : Invoice) × (find (λ x. x.id) i db.invoices ≡ some old)
          × ((r ≡ old)
              ⊎ ((r ≡ record old { status = InvoiceStatus.overdue })
                  × (old.status ≡ InvoiceStatus.sent)
                  × (d : ℕ) × (old.due_date ≡ some d)
                  × (d < today)))
          × ((d : ℕ) → r.status ≡ InvoiceStatus.sent → r.due_date ≡ some d → today ≤ d))
      × ((i : ℕ) (r : Bill)
          → find (λ x. x.id) i db'.bills ≡ some r
          → (old : Bill) × (find (λ x. x.id) i db.bills ≡ some old)
            × ((r ≡ old)
                ⊎ ((r ≡ record old { status = BillStatus.overdue })
                    × (old.status ≡ BillStatus.unpaid)
                    × (d : ℕ) × (old.due_date ≡ some d)
                    × (d < today)))
            × ((d : ℕ) → r.status ≡ BillStatus.unpaid → r.due_date ≡ some d → today ≤ d))
unfolding flag_overdue_financial_records
flag_overdue_lem today db =
    (λ i r h. flagged_invoice today i r db.invoices h, λ i r h. flagged_bill today i r db.bills h)
