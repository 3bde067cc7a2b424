-- ===== src/Tests/BillingRuns.antt =====
-- Invoices, bills and payments at concrete data.
use new_builders_stream.Prelude.{ℕ, ◌<◌, ◌≤◌, ◌≡◌, ◌⊎◌, refl, true, some, none, [], ◌∷◌, arith, All}
use new_builders_stream.Prelude.Int.{pos, ◌*ℤ◌, ◌-ℤ◌, ◌+ℤ◌, ◌≤ℤ◌}
use new_builders_stream.Prelude.Table.{find}
use new_builders_stream.Billing.Ledger.Sound.{IsSound-empty}
use new_builders_stream.Billing.Invoices.Books.{invoice_kind, paid_off}
use new_builders_stream.Billing.Bills.Books.{bill_kind}
use new_builders_stream.Money.{is_positive, quantize_cents}
use new_builders_stream.Models.{Db, Invoice, InvoiceStatus, InvoicePayment, Bill, BillStatus}
use new_builders_stream.Core.Access.{authorize_module, tier_allows}
use new_builders_stream.Core.Lookup.{require_client_access_to_project}
use new_builders_stream.Core.Sync.{publish_record}
use new_builders_stream.Core.Audit.{write_audit_log}
use new_builders_stream.Billing.Invoices.{
  InvoiceCreateRequest, InvoicePaymentCreateRequest, create_invoice, record_locked_payment,
  record_invoice_payment, lock_invoice, void_locked, get_invoice_or_404, settle, update_invoice,
  is_paid, is_void, invoice_response, invoice_row, takes_payment, paid_amount, next_invoice_number,
}
use new_builders_stream.Billing.Invoices.Recorded.{record_invoice_payment_lem}
use new_builders_stream.Billing.Invoices.Numbers.{Numbered, invoices_of, next_invoice_number-fresh}
use new_builders_stream.Billing.Overdue.{flag_overdue_financial_records, flag_overdue_lem}
use new_builders_stream.Billing.Steps.{after, done, then, invoice_created}
use new_builders_stream.Billing.Steps.Safe.{BillingSound, Reach-BillingSound}
use new_builders_stream.Tests.Sample.{
  session, bookkeeper, start, sent_invoice, billed, deliver, odd_amount,
}

abbrev request : InvoiceCreateRequest
request = record { amount = odd_amount; due_date = none }

start-BillingSound : BillingSound start
start-BillingSound = record {
  books = IsSound-empty invoice_kind 100;
  bills = IsSound-empty bill_kind 100;
}

Reach-BillingSound_example :
    BillingSound (after deliver (create_invoice bookkeeper 5 request) start)
Reach-BillingSound_example =
    Reach-BillingSound deliver
      (then start start _ (done start) (invoice_created start bookkeeper 5 request))
      start-BillingSound

abbrev half_payment : InvoicePaymentCreateRequest
half_payment = record { amount = odd_amount; paid_date = 501 }

-- The first payment of the invoice: 100.00 after rounding, all of it.
abbrev payment : InvoicePayment
payment = record {
  id = 100;
  invoice_id = 10;
  company_id = 2;
  amount = pos 10000;
  paid_date = 501;
  recorded_by = 7;
}

record_invoice_payment_lem_example :
    let db' = (record_invoice_payment bookkeeper 10 half_payment billed).1 in
    (inv : Invoice) × (invoice_row session 10 billed ≡ some inv)
    × (is_positive odd_amount ≡ true)
    × (takes_payment inv.status ≡ true)
    × (payment.invoice_id ≡ 10)
    × (payment.company_id ≡ inv.company_id)
    × (payment.amount ≡ quantize_cents odd_amount)
    × (db'.invoice_payments ≡ payment ∷ [])
    × (paid_amount session 10 db' ≤ℤ inv.amount)
    × (find (λ r. r.id) 10 db'.invoices ≡ some (paid_off inv (paid_amount session 10 db')))
unfolding record_invoice_payment record_locked_payment get_invoice_or_404 authorize_module
    require_client_access_to_project lock_invoice invoice_row takes_payment paid_amount settle
    update_invoice write_audit_log publish_record quantize_cents ◌*ℤ◌ ◌-ℤ◌ ◌+ℤ◌ tier_allows
record_invoice_payment_lem_example =
    record_invoice_payment_lem bookkeeper 10 half_payment billed payment
      (record_invoice_payment bookkeeper 10 half_payment billed).1 refl

abbrev large_payment : InvoicePaymentCreateRequest
large_payment = record { amount = record { coefficient = pos 10001; places = 2 }; paid_date = 501 }

-- An invoice that a payment has settled after a void has read it as sent: the void goes through, and
-- the invoice is void with all of it paid.
abbrev settled : Db
settled = record billed {
  invoices = record sent_invoice { status = InvoiceStatus.paid } ∷ [];
  invoice_payments = payment ∷ [];
}

void_of_a_paid_invoice :
    (void_locked bookkeeper sent_invoice settled).1.invoices
    ≡ record sent_invoice { status = InvoiceStatus.void } ∷ []
unfolding void_locked lock_invoice invoice_row update_invoice is_paid is_void write_audit_log
    invoice_response
void_of_a_paid_invoice = refl

-- The number that the second invoice of the branch takes.
abbrev second_invoice : Invoice
second_invoice = record sent_invoice {
  id = 11;
  invoice_number = record { year = 2026; sequence = 2 };
}

next_invoice_number-fresh_example :
    (second_invoice.invoice_number.year ≡ session.year)
    × All (λ (r : Invoice). r.invoice_number.sequence < 2) (invoices_of 2 billed.invoices)
    × Numbered 2 (second_invoice ∷ billed.invoices)
unfolding invoices_of Numbered next_invoice_number
next_invoice_number-fresh_example =
    next_invoice_number-fresh session 2 2 billed second_invoice refl (omega arith, tt)
      (omega arith, tt) refl refl

flag_overdue_lem_example :
    let db' = flag_overdue_financial_records 500 billed in
    ((i : ℕ) (r : Invoice)
      → find (λ x. x.id) i db'.invoices ≡ some r
      → (old : Invoice) × (find (λ x. x.id) i billed.invoices ≡ some old)
        × ((r ≡ old)
            ⊎ ((r ≡ record old { status = InvoiceStatus.overdue })
                × (old.status ≡ InvoiceStatus.sent)
                × (d : ℕ) × (old.due_date ≡ some d)
                × (d < 500)))
        × ((d : ℕ) → r.status ≡ InvoiceStatus.sent → r.due_date ≡ some d → 500 ≤ d))
    × ((i : ℕ) (r : Bill)
        → find (λ x. x.id) i db'.bills ≡ some r
        → (old : Bill) × (find (λ x. x.id) i billed.bills ≡ some old)
          × ((r ≡ old)
              ⊎ ((r ≡ record old { status = BillStatus.overdue })
                  × (old.status ≡ BillStatus.unpaid)
                  × (d : ℕ) × (old.due_date ≡ some d)
                  × (d < 500)))
          × ((d : ℕ) → r.status ≡ BillStatus.unpaid → r.due_date ≡ some d → 500 ≤ d))
flag_overdue_lem_example = flag_overdue_lem 500 billed
