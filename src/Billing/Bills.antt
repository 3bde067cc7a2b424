-- ===== src/Billing/Bills.antt =====
-- backend/app/routers/bills.py: supplier bills and the payments recorded against them.
pub mod Books
pub mod Payment
pub mod Safe
pub mod Routes
use mathlib.Core.Option
use text.Mathlib.Text.{◌==◌ as str_eq}
use new_builders_stream.Prelude.{
  ℕ, ◌+◌, Bool, true, false, not, ◌&&◌, ◌||◌, ◌==◌, String, Option, none, some, List, [], ◌∷◌,
  or_else, is_none, if◌then◌else◌,
}
use new_builders_stream.Prelude.Int.{ℤ, ◌-ℤ◌, leb_ℤ}
use new_builders_stream.Prelude.Table.{update_where, sum_where}
use new_builders_stream.Money.{Decimal, is_positive, quantize_cents}
use new_builders_stream.Models.{
  Db, Session, CurrentUser, Role, admin, accountant, accounting, Bill, BillStatus, BillPayment,
  Project, Subcontractor, uuid, decimal, day,
}
use new_builders_stream.Core.Exec.{
  Exec, not_found, conflict, unprocessable, server_error, pure, gets, modify, require, fetch, uuid4,
  ◌>>=◌, ◌>>◌,
}
use new_builders_stream.Core.Access.{post, authorize_module}
use new_builders_stream.Core.Audit.{write_audit_log}
use new_builders_stream.Core.Lookup.{visible_row, get_project_or_404, get_subcontractor_or_404}
use new_builders_stream.Core.Events.{bill_created}
use new_builders_stream.Core.Sync.{RecordCreated, publish_record}

abbrev pub bill_roles : List Role
bill_roles = admin ∷ accountant ∷ []

unfoldable pub is_paid : BillStatus → Bool
is_paid BillStatus.paid = true
is_paid _ = false

unfoldable pub is_void : BillStatus → Bool
is_void BillStatus.void = true
is_void _ = false

unfoldable pub bill_row : Session → ℕ → Db → Option Bill
unfolding visible_row
bill_row session bill_id db = visible_row session (λ r. r.id) (λ r. r.company_id) bill_id db.bills

-- `_get_bill_or_404`.
pub get_bill_or_404 : CurrentUser → ℕ → Exec Bill
unfolding bill_row
get_bill_or_404 current bill_id =
    fetch (not_found "Bill not found") (bill_row current.session bill_id)

-- `_paid_amount`.
unfoldable pub paid_amount : Session → ℕ → Db → ℤ
unfolding sum_where
paid_amount session bill_id db =
    sum_where (λ p. session.visible p.company_id && p.bill_id == bill_id) (λ p. p.amount)
      db.bill_payments

pub record BillResponse : Type 0 where
  pub bill : Bill
  pub outstanding_balance : ℤ

-- `_bill_response`.
unfoldable pub bill_response : CurrentUser → Bill → Exec BillResponse
unfolding paid_amount
bill_response current bill = do
  paid ← gets (paid_amount current.session bill.id)
  pure (record { bill = bill; outstanding_balance = bill.amount -ℤ paid })

-- The flush of a new status: an UPDATE of that column.
unfoldable pub update_status : ℕ → BillStatus → Exec (Unit {0})
unfolding update_where
update_status bill_id status = modify λ db. record db {
  bills = update_where (λ r. r.id == bill_id) (λ r. record r { status = status }) db.bills;
}

pub record BillCreateRequest : Type 0 where
  pub project_id : Option ℕ
  pub subcontractor_id : Option ℕ
  pub vendor_name : Option String
  pub amount : Decimal
  pub due_date : Option ℕ
  pub bill_number : Option String

-- `not self.vendor_name`: a missing name and an empty one.
is_blank : Option String → Bool
is_blank none = true
is_blank (some name) = str_eq name ""

-- `Field(gt=0)` and `_require_a_vendor`.
is_valid : BillCreateRequest → Bool
unfolding is_blank
is_valid body =
    is_positive body.amount && not (is_none body.subcontractor_id && is_blank body.vendor_name)

-- `if body.project_id is not None: …`.
pub optional_project : CurrentUser → Option ℕ → Exec (Option Project)
optional_project current none = pure none
optional_project current (some i) = do project ← get_project_or_404 current i; pure (some project)

pub optional_subcontractor : CurrentUser → Option ℕ → Exec (Option Subcontractor)
optional_subcontractor current none = pure none
optional_subcontractor current (some i) = do s ← get_subcontractor_or_404 current i; pure (some s)

-- The project's company, else the subcontractor's, else the caller's.
pub resolved_company_id : CurrentUser → Option Project → Option Subcontractor → ℕ
resolved_company_id current (some project) _ = project.company_id
resolved_company_id current none (some s) = s.company_id
resolved_company_id current none none = current.company_id

-- `vendor_name or subcontractor.name`.
resolved_vendor_name : Option String → Option Subcontractor → Option String
unfolding is_blank
resolved_vendor_name name none = name
resolved_vendor_name name (some s) = if is_blank name then some s.name else name

-- The insert, its event and the response: the end of `create_bill`.
unfoldable pub store_bill : CurrentUser → Bill → Exec BillResponse
store_bill current bill = do
  modify (λ db. record db { bills = bill ∷ db.bills })
  publish_record current.session bill_created
      (record { entity_type = "bill"; entity_id = bill.id; company_id = bill.company_id })
  bill_response current bill

unfoldable pub create_bill : CurrentUser → BillCreateRequest → Exec BillResponse
unfolding is_valid optional_project optional_subcontractor resolved_vendor_name
create_bill current body = do
  authorize_module current bill_roles post accounting
  require (is_valid body) (unprocessable "Either subcontractor_id or vendor_name is required")
  project ← optional_project current body.project_id
  subcontractor ← optional_subcontractor current body.subcontractor_id
  id ← uuid4
  store_bill current (record {
    id = id;
    company_id = resolved_company_id current project subcontractor;
    project_id = Option.map (λ p. p.id) project;
    subcontractor_id = body.subcontractor_id;
    vendor_name = resolved_vendor_name body.vendor_name subcontractor;
    bill_number = body.bill_number;
    amount = quantize_cents body.amount;
    status = BillStatus.unpaid;
    due_date = body.due_date;
  })

pub record BillPaymentCreateRequest : Type 0 where
  pub amount : Decimal
  pub paid_date : ℕ

-- A payment refuses a void and a paid bill.
unfoldable pub takes_payment : BillStatus → Bool
unfolding is_void is_paid
takes_payment status = not (is_void status || is_paid status)

-- `SELECT ... FOR UPDATE`, which returns the object that the session holds already, with the columns
-- read before the lock.
unfoldable pub lock_bill : Session → Bill → Exec Bill
unfolding bill_row
lock_bill session bill = do
  fetch (server_error "No row was found when one was required") (bill_row session bill.id)
  pure bill

-- `bill.status = "paid"` once the payments cover the amount.
unfoldable pub settle : CurrentUser → Bill → Exec (Unit {0})
unfolding paid_amount update_status
settle current bill = do
  paid ← gets (paid_amount current.session bill.id)
  if leb_ℤ bill.amount paid then update_status bill.id BillStatus.paid else pure tt

-- From the row lock to the response, with the bill as the request has read it before the lock.
unfoldable pub record_locked_payment :
    CurrentUser → Bill → BillPaymentCreateRequest → Exec BillPayment
record_locked_payment current read body = do
  bill ← lock_bill current.session read
  require (takes_payment bill.status) (conflict "Cannot record a payment against this bill")
  let amount : ℤ = quantize_cents body.amount
  already_paid ← gets (paid_amount current.session bill.id)
  require (leb_ℤ amount (bill.amount -ℤ already_paid))
      (conflict "Payment amount exceeds the bill's remaining balance")
  id ← uuid4
  let payment : BillPayment = record {
    id = id;
    bill_id = bill.id;
    company_id = bill.company_id;
    amount = amount;
    paid_date = body.paid_date;
    recorded_by = current.user_id;
  }
  modify (λ db. record db { bill_payments = payment ∷ db.bill_payments })
  settle current bill
  write_audit_log bill.company_id (some current.user_id) "bill.payment_recorded" "bill" bill.id (
      ("payment_id", uuid id)
      ∷ ("amount", decimal body.amount)
      ∷ ("paid_date", day body.paid_date)
      ∷ [])
  pure payment

unfoldable pub record_bill_payment : CurrentUser → ℕ → BillPaymentCreateRequest → Exec BillPayment
record_bill_payment current bill_id body = do
  authorize_module current bill_roles post accounting
  require (is_positive body.amount) (unprocessable "amount must be greater than 0")
  bill ← get_bill_or_404 current bill_id
  record_locked_payment current bill body

-- From the row lock to the response.
unfoldable pub void_locked : CurrentUser → Bill → Exec BillResponse
void_locked current read = do
  bill ← lock_bill current.session read
  require (not (is_paid bill.status || is_void bill.status)) (conflict "Cannot void this bill")
  update_status bill.id BillStatus.void
  write_audit_log bill.company_id (some current.user_id) "bill.voided" "bill" bill.id []
  bill_response current (record bill { status = BillStatus.void })

unfoldable pub void_bill : CurrentUser → ℕ → Exec BillResponse
void_bill current bill_id = do
  authorize_module current bill_roles post accounting
  bill ← get_bill_or_404 current bill_id
  void_locked current bill
