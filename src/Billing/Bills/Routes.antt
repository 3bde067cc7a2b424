-- ===== src/Billing/Bills/Routes.antt =====
-- The routes of backend/app/routers/bills.py and the books.
use new_builders_stream.Prelude.{ℕ, ◌+◌, ◌≡◌, refl, not, ◌==◌, ◌||◌, Option, some, none, ◌∷◌}
use mathlib.Core.Option
use new_builders_stream.Money.{quantize_cents}
use new_builders_stream.Models.{Db, Session, CurrentUser, Bill, BillStatus}
use new_builders_stream.Core.Exec.{ok, conflict, unprocessable, require, resume}
use new_builders_stream.Core.Exec.Reads.{
  Reads, Reads-pure, Reads-bind, Reads-require, Reads-fetch, or_raise-eq-ok, after_read,
  require-eq-ok,
}
use new_builders_stream.Core.Access.Laws.{authorize_module-Reads}
use new_builders_stream.Core.Audit.{write_audit_log}
use new_builders_stream.Core.Lookup.Laws.{get_project_or_404-Reads, get_subcontractor_or_404-Reads}
use new_builders_stream.Core.Sync.Laws.{publish_record-eq, bill as bill_event}
use new_builders_stream.Billing.Bills.{
  BillResponse, BillCreateRequest, BillPaymentCreateRequest, bill_row, get_bill_or_404, is_paid,
  is_void, create_bill, record_bill_payment, void_bill, void_locked, lock_bill, bill_response,
  update_status, store_bill, optional_project, optional_subcontractor, is_valid,
  resolved_company_id, resolved_vendor_name, store_bill,
}
use new_builders_stream.Billing.Ledger.Sound.{IsSound-insert, IsSound-update_where}
use new_builders_stream.Billing.Bills.Books.{bill_kind, BillsSound, read_now}
use new_builders_stream.Billing.Bills.Safe.{record_locked_payment-BillsSound}

pub get_bill_or_404-Reads : (current : CurrentUser) (i : ℕ) → Reads (get_bill_or_404 current i)
unfolding get_bill_or_404
get_bill_or_404-Reads current i = Reads-fetch _ _

-- What it returns is the visible row of the identifier.
pub get_bill_or_404-row :
    (current : CurrentUser) (i : ℕ) (bill : Bill) (db : Db)
    → get_bill_or_404 current i db ≡ (ok bill, db)
    → bill_row current.session i db ≡ some bill
unfolding get_bill_or_404
get_bill_or_404-row current i bill db h = or_raise-eq-ok _ (bill_row current.session i db) db h

-- Recording a payment: refused, missing, or accepted.
pub record_bill_payment-BillsSound :
    (current : CurrentUser) (i : ℕ) (body : BillPaymentCreateRequest) (db : Db)
    → BillsSound db
    → BillsSound (record_bill_payment current i body db).1
unfolding record_bill_payment
record_bill_payment-BillsSound current i body db s =
    after_read BillsSound _ _ db (authorize_module-Reads _ _ _ _) s λ _ _.
      after_read BillsSound _ _ db (Reads-require _ _) s λ _ positive.
        after_read BillsSound _ _ db (get_bill_or_404-Reads _ _) s λ bill got.
          record_locked_payment-BillsSound current body db bill s (require-eq-ok _ _ db positive)
            (read_now current.session i bill db (get_bill_or_404-row current i bill db got))

pub lock_bill-Reads : (session : Session) (bill : Bill) → Reads (lock_bill session bill)
unfolding lock_bill
lock_bill-Reads session bill = Reads-bind _ _ (Reads-fetch _ _) λ _. Reads-pure _

-- A void from its row lock on, whatever the status is by then.
pub void_locked-BillsSound :
    (current : CurrentUser) (read : Bill) (db : Db)
    → BillsSound db
    → BillsSound (void_locked current read db).1
unfolding void_locked update_status write_audit_log bill_response is_paid
void_locked-BillsSound current read db s =
    after_read BillsSound _ _ db (lock_bill-Reads _ _) s λ bill _.
      after_read {B = BillResponse} BillsSound
        (require (not (is_paid bill.status || is_void bill.status))
          (conflict "Cannot void this bill"))
        _ db (Reads-require _ _) s
        λ _ _.
          IsSound-update_where bill_kind s (λ r. r.id == bill.id)
            (λ r. record r { status = BillStatus.void }) (λ r. refl) (λ r. refl) (λ r. refl)
            (λ r. refl)

pub void_bill-BillsSound :
    (current : CurrentUser) (i : ℕ) (db : Db)
    → BillsSound db
    → BillsSound (void_bill current i db).1
unfolding void_bill
void_bill-BillsSound current i db s =
    after_read BillsSound _ _ db (authorize_module-Reads _ _ _ _) s λ _ _.
      after_read BillsSound _ _ db (get_bill_or_404-Reads _ _) s
        λ bill _. void_locked-BillsSound current bill db s

-- What a stored bill writes to the books.
store_bill-books :
    (current : CurrentUser) (bill : Bill) (db : Db)
    → let db' = (store_bill current bill db).1 in
      (db'.bills ≡ bill ∷ db.bills)
      × (db'.bill_payments ≡ db.bill_payments)
      × (db'.next_id ≡ db.next_id)
unfolding store_bill bill_response
store_bill-books current bill db = rw (publish_record-eq, bill_event, resume) (refl, refl, refl)

-- Creating a bill.
pub optional_project-Reads :
    (current : CurrentUser) (o : Option ℕ) → Reads (optional_project current o)
unfolding optional_project
optional_project-Reads current none = Reads-pure _
optional_project-Reads current (some i) = search (Reads-bind, Reads-pure, get_project_or_404-Reads)

pub optional_subcontractor-Reads :
    (current : CurrentUser) (o : Option ℕ) → Reads (optional_subcontractor current o)
unfolding optional_subcontractor
optional_subcontractor-Reads current none = Reads-pure _
optional_subcontractor-Reads current (some i) =
    search (Reads-bind, Reads-pure, get_subcontractor_or_404-Reads)

stored-BillsSound :
    (current : CurrentUser) (bill : Bill) (db : Db)
    → BillsSound db
    → bill.id ≡ db.next_id
    → bill.status ≡ BillStatus.unpaid
    → BillsSound (store_bill current bill (record db { next_id = db.next_id + 1 })).1
stored-BillsSound current bill db s fresh unpaid =
    let (a, b, c) = store_bill-books current bill (record db { next_id = db.next_id + 1 }) in
    rw (a, b, c) (IsSound-insert bill_kind s bill fresh (unfold is_paid in rw unpaid))

pub create_bill-BillsSound :
    (current : CurrentUser) (body : BillCreateRequest) (db : Db)
    → BillsSound db
    → BillsSound (create_bill current body db).1
unfolding create_bill
create_bill-BillsSound current body db s =
    after_read {B = BillResponse} BillsSound _ _ db (authorize_module-Reads _ _ _ _) s λ _ _.
      after_read {B = BillResponse} BillsSound
        (require (is_valid body)
          (unprocessable "Either subcontractor_id or vendor_name is required"))
        _ db (Reads-require _ _) s
        λ _ _.
          after_read {B = BillResponse} BillsSound (optional_project current body.project_id) _ db
            (optional_project-Reads _ _) s
            λ project _.
              after_read {B = BillResponse} BillsSound
                (optional_subcontractor current body.subcontractor_id) _ db
                (optional_subcontractor-Reads _ _) s
                λ subcontractor _.
                  stored-BillsSound current
                    (record {
                      id = db.next_id;
                      company_id = resolved_company_id current project subcontractor;
                      project_id = Option.map (λ p. p.id) project;
                      subcontractor_id = body.subcontractor_id;
                      vendor_name = resolved_vendor_name body.vendor_name subcontractor;
                      bill_number = body.bill_number;
                      amount = quantize_cents body.amount;
                      status = BillStatus.unpaid;
                      due_date = body.due_date;
                    })
                    db s refl refl
