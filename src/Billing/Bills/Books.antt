-- ===== src/Billing/Bills/Books.antt =====
-- Bills and their payments as a ledger.
use new_builders_stream.Prelude.{ℕ, ◌≡◌, refl, sym, true, ◌||◌, some, arith, if◌then◌else◌}
use new_builders_stream.Prelude.Int.{ℤ, leb_ℤ}
use new_builders_stream.Prelude.Table.{find, find_key}
use mathlib.Core.Path.{subst}
use new_builders_stream.Models.{Db, Session, Bill, BillStatus, BillPayment}
use new_builders_stream.Core.Lookup.Laws.{visible_row-find}
use new_builders_stream.Billing.Ledger.{Kind, paid_of, Owned, IsSound}
use new_builders_stream.Billing.Ledger.Visible.{visible_sum-eq-paid_of}
use new_builders_stream.Billing.Bills.{is_paid, bill_row, paid_amount}

abbrev pub bill_kind : Kind Bill BillPayment
bill_kind = record {
  id_of = λ r. r.id;
  company_of = λ r. r.company_id;
  amount_of = λ r. r.amount;
  is_paid = λ r. is_paid r.status;
  document = λ p. p.bill_id;
  owner = λ p. p.company_id;
  value = λ p. p.amount;
}

-- The bills and payments of a database are sound.
abbrev pub BillsSound : Db → Type 0
BillsSound db = IsSound bill_kind db.bills db.bill_payments db.next_id

-- A row that a route reads stands in the table, and its company is visible.
pub bill_row-find :
    (session : Session) (i : ℕ) (bill : Bill) (db : Db)
    → bill_row session i db ≡ some bill
    → (find (λ r. r.id) i db.bills ≡ some bill) × (session.visible bill.company_id ≡ true)
unfolding bill_row
bill_row-find session i bill db h =
    visible_row-find session (λ r. r.id) (λ r. r.company_id) i bill db.bills h

-- The sum that a route reads is the sum of all payments of a visible bill.
pub paid_amount-eq-paid_of :
    (session : Session) (i c : ℕ) (db : Db)
    → session.visible c ≡ true
    → Owned bill_kind i c db.bill_payments
    → paid_amount session i db ≡ paid_of bill_kind i db.bill_payments
unfolding paid_amount
paid_amount-eq-paid_of session i c db v h =
    visible_sum-eq-paid_of bill_kind session.visible i c db.bill_payments v h

-- The bill after a payment that brings the sum to `total`.
unfoldable pub paid_off : Bill → ℤ → Bill
paid_off bill total =
    if leb_ℤ bill.amount total then record bill { status = BillStatus.paid } else bill

pub paid_off_keeps :
    (bill : Bill) (total : ℤ)
    → ((paid_off bill total).company_id ≡ bill.company_id)
      × ((paid_off bill total).amount ≡ bill.amount)
unfolding paid_off
paid_off_keeps bill total = ground arith

pub paid_off_status :
    (bill : Bill) (total : ℤ)
    → is_paid (paid_off bill total).status ≡ (leb_ℤ bill.amount total || is_paid bill.status)
unfolding paid_off is_paid
paid_off_status bill total = ground arith

-- A bill that a session has read earlier: its status may have changed since; no request changes its
-- company and its amount, or deletes it.
pub record ReadBefore (session : Session) (read : Bill) (db : Db) : Type 0 where
  pub row : Bill
  pub found : find (λ r. r.id) read.id db.bills ≡ some row
  pub seen : session.visible read.company_id ≡ true
  pub company : read.company_id ≡ row.company_id
  pub amount : read.amount ≡ row.amount

-- It is so for one that was read just now.
pub read_now :
    (session : Session) (i : ℕ) (bill : Bill) (db : Db)
    → bill_row session i db ≡ some bill
    → ReadBefore session bill db
read_now session i bill db h =
    let (found, seen) = bill_row-find session i bill db h in
    record {
      row = bill;
      found =
          subst (λ t. find (λ r. r.id) t db.bills ≡ some bill)
            (sym (find_key (λ r. r.id) i bill db.bills found)) found;
      seen = seen;
      company = refl;
      amount = refl;
    }
