-- ===== src/Sales/Estimates.antt =====
-- Estimates: backend/app/routers/estimates.py and backend/app/services/estimate_calculation.py.
pub mod Deposit
pub mod LineItems
pub mod Materials
pub mod Signature
use new_builders_stream.Prelude.{
  ℕ, ◌+◌, Bool, true, false, not, ◌&&◌, ◌||◌, ◌==◌, is_none, Option, some, none, List, [], ◌∷◌,
  if◌then◌else◌,
}
use new_builders_stream.Prelude.Int.{ℤ}
use new_builders_stream.Prelude.Table.{replace, select, sum_where}
use new_builders_stream.Money.{from_cents, times, multiplier, quantize_cents}
use new_builders_stream.Models.{
  Db, Session, CurrentUser, estimation, Estimate, EstimateStatus, Lead, LeadStatus, MarkupProfile,
}
use new_builders_stream.Core.Exec.{
  Exec, not_found, conflict, unprocessable, server_error, pure, gets, modify, require, fetch, uuid4,
  ◌>>=◌, ◌>>◌,
}
use new_builders_stream.Core.Access.{post, delete, authorize_module}
use new_builders_stream.Core.Audit.{write_audit_log}
use new_builders_stream.Core.Lookup.{
  visible_row, get_project_or_404, require_client_access_to_estimate,
}
use new_builders_stream.Sales.Projects.{project_roles}

unfoldable pub is_draft : EstimateStatus → Bool
is_draft EstimateStatus.draft = true
is_draft _ = false

unfoldable pub is_sent : EstimateStatus → Bool
is_sent EstimateStatus.sent = true
is_sent _ = false

unfoldable pub estimate_row : Session → ℕ → Db → Option Estimate
unfolding visible_row
estimate_row session i db = visible_row session (λ r. r.id) (λ r. r.company_id) i db.estimates

-- `_get_estimate_or_404`.
unfoldable pub get_estimate_or_404 : CurrentUser → ℕ → Exec Estimate
unfolding estimate_row
get_estimate_or_404 current i = do
  estimate ← fetch (not_found "Estimate not found") (estimate_row current.session i)
  require_client_access_to_estimate current estimate
  pure estimate

markup_row : Session → ℕ → Db → Option MarkupProfile
unfolding visible_row
markup_row session i db = visible_row session (λ r. r.id) (λ r. r.company_id) i db.markup_profiles

-- The flush of a changed estimate.
unfoldable pub update_estimate_row : Estimate → Exec (Unit {0})
update_estimate_row r = modify (λ db. record db { estimates = replace (λ x. x.id) r db.estimates })

pub record EstimateCreateRequest : Type 0 where
  pub project_id : Option ℕ
  pub lead_id : Option ℕ
  pub markup_profile_id : ℕ

-- _LEAD_STATUSES_ELIGIBLE_FOR_ESTIMATE.
is_eligible : LeadStatus → Bool
is_eligible LeadStatus.estimating = true
is_eligible LeadStatus.qualified = true
is_eligible LeadStatus.won = true
is_eligible _ = false

-- The company of the project, if one is named.
project_company : CurrentUser → Option ℕ → ℕ → Exec ℕ
project_company current none company_id = pure company_id
project_company current (some i) company_id = do
  project ← get_project_or_404 current i
  pure project.company_id

lead_row : Session → ℕ → Db → Option Lead
unfolding visible_row
lead_row session i db = visible_row session (λ r. r.id) (λ r. r.company_id) i db.leads

-- The company of the lead, if one is named.
lead_company : CurrentUser → Option ℕ → ℕ → Exec ℕ
unfolding lead_row is_eligible
lead_company current none company_id = pure company_id
lead_company current (some i) company_id = do
  lead ← fetch (not_found "Lead not found") (lead_row current.session i)
  require (is_eligible lead.status)
      (unprocessable "Lead must be in an eligible status to create an Estimate against it")
  pure lead.company_id

unfoldable pub create_estimate : CurrentUser → EstimateCreateRequest → Exec Estimate
unfolding project_company lead_company markup_row
create_estimate current payload = do
  authorize_module current project_roles post estimation
  require
      (not (is_none payload.project_id && is_none payload.lead_id)
        && (is_none payload.project_id || is_none payload.lead_id))
      (unprocessable "Exactly one of project_id or lead_id must be supplied")
  by_project ← project_company current payload.project_id current.company_id
  company_id ← lead_company current payload.lead_id by_project
  fetch (not_found "Markup profile not found")
      (markup_row current.session payload.markup_profile_id)
  id ← uuid4
  let estimate : Estimate = record {
    id = id;
    company_id = company_id;
    project_id = payload.project_id;
    lead_id = payload.lead_id;
    markup_profile_id = payload.markup_profile_id;
    status = EstimateStatus.draft;
    subtotal = none;
    total = none;
    is_snapshotted = false;
    esignature_id = none;
  }
  modify (λ db. record db { estimates = estimate ∷ db.estimates })
  write_audit_log company_id (some current.user_id) "estimate.created" "estimate" id []
  pure estimate

pub record EstimateCalculation : Type 0 where
  pub subtotal : ℤ
  pub total : ℤ

-- `calculate_estimate`: the totals; the tax is zero.
unfoldable pub calculate_estimate : Session → Estimate → Exec EstimateCalculation
unfolding markup_row sum_where
calculate_estimate session estimate = do
  subtotal ← gets λ db.
      sum_where (λ l. session.visible l.company_id && l.estimate_id == estimate.id)
        (λ l. l.line_total) db.line_items
  profile ←
      fetch (server_error "No row was found when one was required")
        (markup_row session estimate.markup_profile_id)
  pure (record {
    subtotal = subtotal;
    total = quantize_cents (
        times (times (from_cents subtotal) (multiplier profile.overhead_pct))
          (multiplier profile.profit_pct));
  })

unfoldable pub calculate_estimate_totals : CurrentUser → ℕ → Exec EstimateCalculation
unfolding calculate_estimate
calculate_estimate_totals current i = do
  authorize_module current project_roles post estimation
  estimate ← get_estimate_or_404 current i
  require (not estimate.is_snapshotted)
      (conflict "Estimate is snapshotted and its totals can no longer be recalculated")
  require (not (is_sent estimate.status))
      (conflict "Estimate is awaiting client signature and its totals cannot be recalculated")
  calculation ← calculate_estimate current.session estimate
  update_estimate_row
      (record estimate { subtotal = some calculation.subtotal; total = some calculation.total })
  pure calculation

-- Mail to the clients follows, outside the database.
unfoldable pub send_estimate_for_signature : CurrentUser → ℕ → Exec Estimate
send_estimate_for_signature current i = do
  authorize_module current project_roles post estimation
  estimate ← get_estimate_or_404 current i
  require (not (is_none estimate.total))
      (conflict "Estimate has not been calculated yet and cannot be sent for signature")
  let sent : Estimate = record estimate { status = EstimateStatus.sent }
  update_estimate_row sent
  pure sent

-- The line items go with their estimate (ON DELETE CASCADE).
unfoldable pub delete_estimate : CurrentUser → ℕ → Exec (Unit {0})
delete_estimate current i = do
  authorize_module current project_roles delete estimation
  estimate ← get_estimate_or_404 current i
  require (is_draft estimate.status) (conflict "Estimate must be in 'draft' status to delete")
  modify λ db. record db {
    estimates = select (λ e. not (e.id == estimate.id)) db.estimates;
    line_items = select (λ l. not (l.estimate_id == estimate.id)) db.line_items;
  }
