-- ===== src/Billing/Steps/SparesBills.antt =====
-- The invoice routes and the tables of bills and their payments.
use new_builders_stream.Prelude.{ℕ, String, refl, Option, List, ◌∷◌}
use new_builders_stream.Prelude.Int.{leb_ℤ}
use new_builders_stream.Models.{
  Db, Session, CurrentUser, Bill, BillPayment, Invoice, InvoiceStatus, InvoicePayment, MetaValue,
}
use new_builders_stream.Core.Exec.{Exec, pure, gets, modify, uuid4, ◌>>=◌}
use new_builders_stream.Core.Audit.{write_audit_log}
use new_builders_stream.Core.Events.{Event}
use new_builders_stream.Core.Sync.{RecordCreated, publish_record}
use new_builders_stream.Core.Exec.Reads.{
  Reads, reads_rules, Reads-gets, Reads-pure, Reads-or_raise, Reads-fetch, Reads-require,
}
use new_builders_stream.Core.Exec.Spares.{
  Spares, Spares-Reads, Spares-bind, Spares-if, Spares-modify,
}
use new_builders_stream.Core.Sync.Laws.{IsRecordEvent, invoice, payment}
use new_builders_stream.Core.Sync.Spares.{Apart, Spares-uuid4, Spares-audit, Spares-publish}
use new_builders_stream.Core.Access.Laws.{authorize_module-Reads}
use new_builders_stream.Core.Lookup.Laws.{get_project_or_404-Reads}
use new_builders_stream.Billing.Invoices.{
  InvoiceCreateRequest, InvoicePaymentCreateRequest, create_invoice, send_invoice, send_read,
  set_status, record_locked_payment, record_invoice_payment, void_locked, void_invoice,
  insert_invoice, update_invoice, invoice_response, settle, store_invoice, paid_amount,
}
use new_builders_stream.Billing.Invoices.Routes.{
  get_invoice_or_404-Reads, lock_invoice-Reads, next_invoice_number-Reads,
}

abbrev pub bill_tables : Db → List Bill × List BillPayment
bill_tables db = (db.bills, db.bill_payments)

apart : Apart bill_tables
apart = record { of_ids = λ db n. refl; of_audit = λ db rows. refl; of_queue = λ db jobs. refl }

bind :
    {A B : Type 0} (m : Exec A) (k : A → Exec B)
    → Spares bill_tables m
    → ((a : A) → Spares bill_tables (k a))
    → Spares bill_tables (m >>= k)
bind m k = Spares-bind bill_tables m k

reads : {A : Type 0} (m : Exec A) → Reads m → Spares bill_tables m
reads m r = Spares-Reads bill_tables m r

insert : (r : Invoice) → Spares bill_tables (insert_invoice r)
unfolding insert_invoice
insert r = Spares-modify bill_tables _ (λ db. refl) (λ db. refl)

update : (i : ℕ) (set : Invoice → Invoice) → Spares bill_tables (update_invoice i set)
unfolding update_invoice
update i set = Spares-modify bill_tables _ (λ db. refl) (λ db. refl)

insert_payment :
    (p : InvoicePayment)
    → Spares bill_tables (modify (λ db. record db { invoice_payments = p ∷ db.invoice_payments }))
insert_payment p = Spares-modify bill_tables _ (λ db. refl) (λ db. refl)

new_id : Spares bill_tables uuid4
new_id = Spares-uuid4 bill_tables apart

audit :
    (c : ℕ) (actor : Option ℕ) (action entity : String) (i : ℕ)
    (metadata : List (String × MetaValue))
    → Spares bill_tables (write_audit_log c actor action entity i metadata)
audit = Spares-audit bill_tables apart

published :
    (session : Session) (event : Event) (p : RecordCreated)
    → IsRecordEvent event
    → Spares bill_tables (publish_record session event p)
published = Spares-publish bill_tables apart

response-Reads : (current : CurrentUser) (r : Invoice) → Reads (invoice_response current r)
unfolding invoice_response
response-Reads current r = search reads_rules

settled : (current : CurrentUser) (r : Invoice) → Spares bill_tables (settle current r)
unfolding settle
settled current r =
    bind (gets (paid_amount current.session r.id)) _ (reads _ (Reads-gets _)) λ paid.
      Spares-if bill_tables (leb_ℤ r.amount paid)
        (update_invoice r.id (set_status InvoiceStatus.paid)) (pure tt) (update _ _)
        (reads _ (Reads-pure _))

ruleset route_rules = (
  bind, reads, insert, update, insert_payment, new_id, audit, published, settled, Reads-pure,
  Reads-gets, Reads-or_raise, Reads-fetch, Reads-require, invoice, payment, response-Reads,
  authorize_module-Reads, get_invoice_or_404-Reads, lock_invoice-Reads, next_invoice_number-Reads,
  get_project_or_404-Reads,
)

pub send_read-Spares :
    (current : CurrentUser) (read : Invoice) (due : Option ℕ)
    → Spares bill_tables (send_read current read due)
unfolding send_read
send_read-Spares current read due = search route_rules depth 24

pub send_invoice-Spares :
    (current : CurrentUser) (i : ℕ) (due : Option ℕ)
    → Spares bill_tables (send_invoice current i due)
unfolding send_invoice
send_invoice-Spares current i due = search (route_rules, send_read-Spares) depth 24

store_invoice-Spares :
    (current : CurrentUser) (r : Invoice) → Spares bill_tables (store_invoice current r)
unfolding store_invoice
store_invoice-Spares current r = search route_rules depth 24

pub create_invoice-Spares :
    (current : CurrentUser) (project_id : ℕ) (body : InvoiceCreateRequest)
    → Spares bill_tables (create_invoice current project_id body)
unfolding create_invoice
create_invoice-Spares current project_id body = search (route_rules, store_invoice-Spares) depth 24

pub record_locked_payment-Spares :
    (current : CurrentUser) (read : Invoice) (body : InvoicePaymentCreateRequest)
    → Spares bill_tables (record_locked_payment current read body)
unfolding record_locked_payment
record_locked_payment-Spares current read body = search route_rules depth 24

pub record_invoice_payment-Spares :
    (current : CurrentUser) (i : ℕ) (body : InvoicePaymentCreateRequest)
    → Spares bill_tables (record_invoice_payment current i body)
unfolding record_invoice_payment
record_invoice_payment-Spares current i body =
    search (route_rules, record_locked_payment-Spares) depth 24

pub void_locked-Spares :
    (current : CurrentUser) (read : Invoice) → Spares bill_tables (void_locked current read)
unfolding void_locked
void_locked-Spares current read = search route_rules depth 24

pub void_invoice-Spares :
    (current : CurrentUser) (i : ℕ) → Spares bill_tables (void_invoice current i)
unfolding void_invoice
void_invoice-Spares current i = search (route_rules, void_locked-Spares) depth 24
