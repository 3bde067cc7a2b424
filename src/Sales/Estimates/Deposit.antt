-- ===== src/Sales/Estimates/Deposit.antt =====
-- The deposit invoice of an approved estimate: backend/app/services/estimate_approved_handler.py and
-- financial_settings.py.
pub mod Exact
pub mod Rate
use new_builders_stream.Prelude.{
  ℕ, ◌≡◌, Bool, true, false, not, ◌==◌, Option, some, none, or_else, List, [], ◌∷◌, if◌then◌else◌,
}
use new_builders_stream.Prelude.Int.{ℤ, pos}
use new_builders_stream.Prelude.Table.{find, select}
use new_builders_stream.Money.{Decimal, from_cents, times, quantize_cents}
use new_builders_stream.Models.{
  Db, Session, accounting, CompanyFinancialSettings, Invoice, InvoiceStatus, uuid,
}
use new_builders_stream.Core.Exec.{Exec, server_error, pure, raise, gets, uuid4, ◌>>=◌, ◌>>◌}
use new_builders_stream.Core.Access.{tier_allows}
use new_builders_stream.Core.Audit.{write_audit_log}
use new_builders_stream.Core.Events.{invoice_created}
use new_builders_stream.Core.Sync.{publish_record}
use new_builders_stream.Billing.Invoices.{next_invoice_number, insert_invoice}

pub record FinancialSettings : Type 0 where
  pub deposit_percentage : Decimal
  pub tax_rate : Decimal

abbrev pub default_deposit_percentage : Decimal
default_deposit_percentage = record { coefficient = pos 10; places = 2 }

default_tax_rate : Decimal
default_tax_rate = record { coefficient = pos 0; places = 2 }

or_default : Decimal → Option Decimal → Decimal
or_default d none = d
or_default d (some x) = x

setting :
    (CompanyFinancialSettings → Option Decimal) → ℕ → List CompanyFinancialSettings → Option Decimal
setting field company_id rows = elim (find (λ r. r.company_id) company_id rows) [
  | none ↦ none
  | some r ↦ field r
]

-- `resolve_financial_settings`, field by field: the company's own row, else the root company's, else
-- the default. Row-level security hides the row of a company that the session does not see, which the
-- root company is to the session of a branch.
unfoldable pub resolve_financial_settings : Session → ℕ → Db → FinancialSettings
unfolding setting or_default default_deposit_percentage default_tax_rate find select
resolve_financial_settings session company_id db =
    let root = session.get_root_company_id company_id in
    let rows = select (λ r. session.visible r.company_id) db.financial_settings in
    record {
      deposit_percentage = or_default default_deposit_percentage (
          or_else (setting (λ r. r.deposit_percentage) company_id rows)
            (setting (λ r. r.deposit_percentage) root rows));
      tax_rate = or_default default_tax_rate (
          or_else (setting (λ r. r.tax_rate) company_id rows)
            (setting (λ r. r.tax_rate) root rows));
    }

-- The payload of ESTIMATE_APPROVED.
pub record EstimateApproved : Type 0 where
  pub estimate_id : ℕ
  pub project_id : Option ℕ
  pub company_id : ℕ
  pub approved_total : Option ℤ
  pub actor_id : Option ℕ

-- The invoice, its audit entry and its event.
unfoldable pub deposit_invoice : Session → EstimateApproved → ℕ → ℤ → Exec (Unit {0})
deposit_invoice session p project_id amount = do
  invoice_number ← next_invoice_number session p.company_id
  id ← uuid4
  insert_invoice (record {
    id = id;
    project_id = project_id;
    company_id = p.company_id;
    estimate_id = some p.estimate_id;
    invoice_number = invoice_number;
    amount = amount;
    status = InvoiceStatus.draft;
    due_date = none;
  })
  write_audit_log p.company_id p.actor_id "invoice.auto_generated" "invoice" id
      (("estimate_id", uuid p.estimate_id) ∷ [])
  publish_record session invoice_created
      (record { entity_type = "invoice"; entity_id = id; company_id = p.company_id })

-- The deposit of a total; the product with a missing total fails.
unfoldable pub deposit_of_total : Session → EstimateApproved → ℕ → Option ℤ → Exec (Unit {0})
unfolding deposit_invoice
deposit_of_total session p project_id none =
    raise (server_error "unsupported operand type(s) for *: 'NoneType' and 'Decimal'")
deposit_of_total session p project_id (some total) = do
  settings ← gets (resolve_financial_settings session p.company_id)
  deposit_invoice session p project_id
      (quantize_cents (times (from_cents total) settings.deposit_percentage))

-- `handle_estimate_approved`.
unfoldable pub estimate_was_approved : Session → EstimateApproved → Option ℕ → Exec (Unit {0})
unfolding deposit_of_total
estimate_was_approved session p none = pure tt
estimate_was_approved session p (some project_id) = do
  allowed ← gets (tier_allows session p.company_id accounting)
  if allowed then deposit_of_total session p project_id p.approved_total else pure tt
