-- ===== src/Billing/Steps/SparesInvoices.antt =====
-- The bill routes and the tables of invoices and their payments.
use new_builders_stream.Prelude.{ℕ, String, refl, Option, List, ◌∷◌}
use new_builders_stream.Prelude.Int.{leb_ℤ}
use new_builders_stream.Models.{
  Db, Session, CurrentUser, Bill, BillStatus, BillPayment, Invoice, InvoicePayment, MetaValue,
}
use new_builders_stream.Core.Exec.{Exec, pure, gets, modify, uuid4, ◌>>=◌}
use new_builders_stream.Core.Audit.{write_audit_log}
use new_builders_stream.Core.Events.{Event}
use new_builders_stream.Core.Sync.{RecordCreated, publish_record}
use new_builders_stream.Core.Exec.Reads.{
  Reads, reads_rules, Reads-gets, Reads-pure, Reads-or_raise, Reads-fetch, Reads-require,
}
use new_builders_stream.Core.Exec.Spares.{
  Spares, Spares-Reads, Spares-bind, Spares-if, Spares-modify,
}
use new_builders_stream.Core.Sync.Laws.{IsRecordEvent, bill}
use new_builders_stream.Core.Sync.Spares.{Apart, Spares-uuid4, Spares-audit, Spares-publish}
use new_builders_stream.Core.Access.Laws.{authorize_module-Reads}
use new_builders_stream.Billing.Bills.{
  BillCreateRequest, BillPaymentCreateRequest, create_bill, record_locked_payment,
  record_bill_payment, void_locked, void_bill, update_status, bill_response, settle, store_bill,
  paid_amount,
}
use new_builders_stream.Billing.Bills.Routes.{
  get_bill_or_404-Reads, lock_bill-Reads, optional_project-Reads, optional_subcontractor-Reads,
}

abbrev pub invoice_tables : Db → List Invoice × List InvoicePayment
invoice_tables db = (db.invoices, db.invoice_payments)

apart : Apart invoice_tables
apart = record { of_ids = λ db n. refl; of_audit = λ db rows. refl; of_queue = λ db jobs. refl }

bind :
    {A B : Type 0} (m : Exec A) (k : A → Exec B)
    → Spares invoice_tables m
    → ((a : A) → Spares invoice_tables (k a))
    → Spares invoice_tables (m >>= k)
bind m k = Spares-bind invoice_tables m k

reads : {A : Type 0} (m : Exec A) → Reads m → Spares invoice_tables m
reads m r = Spares-Reads invoice_tables m r

insert : (r : Bill) → Spares invoice_tables (modify (λ db. record db { bills = r ∷ db.bills }))
insert r = Spares-modify invoice_tables _ (λ db. refl) (λ db. refl)

update : (i : ℕ) (status : BillStatus) → Spares invoice_tables (update_status i status)
unfolding update_status
update i status = Spares-modify invoice_tables _ (λ db. refl) (λ db. refl)

insert_payment :
    (p : BillPayment)
    → Spares invoice_tables (modify (λ db. record db { bill_payments = p ∷ db.bill_payments }))
insert_payment p = Spares-modify invoice_tables _ (λ db. refl) (λ db. refl)

new_id : Spares invoice_tables uuid4
new_id = Spares-uuid4 invoice_tables apart

audit :
    (c : ℕ) (actor : Option ℕ) (action entity : String) (i : ℕ)
    (metadata : List (String × MetaValue))
    → Spares invoice_tables (write_audit_log c actor action entity i metadata)
audit = Spares-audit invoice_tables apart

published :
    (session : Session) (event : Event) (p : RecordCreated)
    → IsRecordEvent event
    → Spares invoice_tables (publish_record session event p)
published = Spares-publish invoice_tables apart

response-Reads : (current : CurrentUser) (r : Bill) → Reads (bill_response current r)
unfolding bill_response
response-Reads current r = search reads_rules

settled : (current : CurrentUser) (r : Bill) → Spares invoice_tables (settle current r)
unfolding settle
settled current r =
    bind (gets (paid_amount current.session r.id)) _ (reads _ (Reads-gets _)) λ paid.
      Spares-if invoice_tables (leb_ℤ r.amount paid) (update_status r.id BillStatus.paid) (pure tt)
        (update _ _) (reads _ (Reads-pure _))

ruleset route_rules = (
  bind, reads, insert, update, insert_payment, new_id, audit, published, settled, Reads-pure,
  Reads-gets, Reads-or_raise, Reads-fetch, Reads-require, bill, response-Reads,
  authorize_module-Reads, get_bill_or_404-Reads, lock_bill-Reads, optional_project-Reads,
  optional_subcontractor-Reads,
)

store_bill-Spares :
    (current : CurrentUser) (r : Bill) → Spares invoice_tables (store_bill current r)
unfolding store_bill
store_bill-Spares current r = search route_rules depth 24

pub create_bill-Spares :
    (current : CurrentUser) (body : BillCreateRequest)
    → Spares invoice_tables (create_bill current body)
unfolding create_bill
create_bill-Spares current body = search (route_rules, store_bill-Spares) depth 24

pub record_locked_payment-Spares :
    (current : CurrentUser) (read : Bill) (body : BillPaymentCreateRequest)
    → Spares invoice_tables (record_locked_payment current read body)
unfolding record_locked_payment
record_locked_payment-Spares current read body = search route_rules depth 24

pub record_bill_payment-Spares :
    (current : CurrentUser) (i : ℕ) (body : BillPaymentCreateRequest)
    → Spares invoice_tables (record_bill_payment current i body)
unfolding record_bill_payment
record_bill_payment-Spares current i body =
    search (route_rules, record_locked_payment-Spares) depth 24

pub void_locked-Spares :
    (current : CurrentUser) (read : Bill) → Spares invoice_tables (void_locked current read)
unfolding void_locked
void_locked-Spares current read = search route_rules depth 24

pub void_bill-Spares : (current : CurrentUser) (i : ℕ) → Spares invoice_tables (void_bill current i)
unfolding void_bill
void_bill-Spares current i = search (route_rules, void_locked-Spares) depth 24
