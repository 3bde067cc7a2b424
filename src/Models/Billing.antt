-- ===== src/Models/Billing.antt =====
-- backend/app/models/invoice.py, invoice_payment.py, bill.py, bill_payment.py. Amounts are cents.
use new_builders_stream.Prelude.{ℕ, String, Option}
use new_builders_stream.Prelude.Int.{ℤ}

-- VALID_INVOICE_STATUSES.
pub data InvoiceStatus : Type 0 where
  draft sent paid overdue void : InvoiceStatus

-- INV-<year>-<sequence>.
pub record InvoiceNumber : Type 0 where
  pub year : ℕ
  pub sequence : ℕ

pub record Invoice : Type 0 where
  pub id : ℕ
  pub project_id : ℕ
  pub company_id : ℕ
  pub estimate_id : Option ℕ
  pub invoice_number : InvoiceNumber
  pub amount : ℤ
  pub status : InvoiceStatus
  pub due_date : Option ℕ

pub record InvoicePayment : Type 0 where
  pub id : ℕ
  pub invoice_id : ℕ
  pub company_id : ℕ
  pub amount : ℤ
  pub paid_date : ℕ
  pub recorded_by : ℕ

-- VALID_BILL_STATUSES.
pub data BillStatus : Type 0 where
  unpaid paid overdue void : BillStatus

pub record Bill : Type 0 where
  pub id : ℕ
  pub company_id : ℕ
  pub project_id : Option ℕ
  pub subcontractor_id : Option ℕ
  pub vendor_name : Option String
  pub bill_number : Option String
  pub amount : ℤ
  pub status : BillStatus
  pub due_date : Option ℕ

pub record BillPayment : Type 0 where
  pub id : ℕ
  pub bill_id : ℕ
  pub company_id : ℕ
  pub amount : ℤ
  pub paid_date : ℕ
  pub recorded_by : ℕ
