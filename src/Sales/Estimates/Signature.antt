-- ===== src/Sales/Estimates/Signature.antt =====
-- The client's decision on an estimate: `approve_estimate` and `reject_estimate` of
-- backend/app/routers/estimates.py, and the handlers of ESTIMATE_APPROVED.
pub mod Handlers
pub mod Frozen
pub mod Approved
use new_builders_stream.Prelude.{ℕ, ◌+◌, ◌≡◌, Bool, true, String, Option, some, none, List, [], ◌∷◌}
use new_builders_stream.Models.{
  Db, Session, CurrentUser, client, estimation, Estimate, EstimateStatus, text,
}
use new_builders_stream.Core.Exec.{Exec, conflict, too_large, pure, require, ◌>>=◌, ◌>>◌}
use new_builders_stream.Core.Access.{post, authorize_module}
use new_builders_stream.Core.Audit.{write_audit_log}
use new_builders_stream.Core.Events.{
  EventHandler, handle_estimate_approved, handle_estimate_approved_bom, estimate_approved, publish,
}
use new_builders_stream.Sales.ChangeOrders.{
  SignatureForm, signer_roles, capture_esignature, fits_upload, require_signer_is_caller,
}
use new_builders_stream.Sales.Estimates.{is_sent, get_estimate_or_404, update_estimate_row}
use new_builders_stream.Sales.Estimates.Deposit.{EstimateApproved, estimate_was_approved}
use new_builders_stream.Sales.Estimates.Materials.{materials_were_approved}

-- No other handler is registered for this event.
unfoldable pub call_approved : Session → EventHandler → EstimateApproved → Exec (Unit {0})
call_approved session handle_estimate_approved p = estimate_was_approved session p p.project_id
call_approved session handle_estimate_approved_bom p =
    materials_were_approved session p p.project_id
call_approved session _ p = pure tt

-- The approved row.
abbrev pub approved_row : Estimate → ℕ → Estimate
approved_row estimate esignature_id = record estimate {
  esignature_id = some esignature_id;
  status = EstimateStatus.approved;
  is_snapshotted = true;
}

-- From the signature to the response.
unfoldable pub sign_estimate : CurrentUser → Estimate → SignatureForm → Exec Estimate
sign_estimate current estimate form = do
  esignature_id ← capture_esignature current estimate.company_id "estimate" form
  update_estimate_row (approved_row estimate esignature_id)
  write_audit_log current.company_id (some current.user_id) "estimate.approved" "estimate"
      estimate.id []
  publish estimate_approved (call_approved current.session) (record {
    estimate_id = estimate.id;
    project_id = estimate.project_id;
    company_id = estimate.company_id;
    approved_total = estimate.total;
    actor_id = some current.user_id;
  })
  pure (approved_row estimate esignature_id)

module _ (same_email : String → String → Bool) where
  unfoldable pub approve_estimate : CurrentUser → ℕ → SignatureForm → Exec Estimate
  approve_estimate current i form = do
    authorize_module current signer_roles post estimation
    estimate ← get_estimate_or_404 current i
    require (is_sent estimate.status)
        (conflict "Estimate must be in 'sent' status to approve/reject")
    require_signer_is_caller same_email current form.signer_email
    require (fits_upload form) (too_large "Uploaded file exceeds the limit")
    sign_estimate current estimate form

unfoldable pub reject_estimate : CurrentUser → ℕ → String → Exec Estimate
reject_estimate current i reason = do
  authorize_module current signer_roles post estimation
  estimate ← get_estimate_or_404 current i
  require (is_sent estimate.status) (conflict "Estimate must be in 'sent' status to approve/reject")
  let rejected : Estimate = record estimate { status = EstimateStatus.rejected }
  update_estimate_row rejected
  write_audit_log current.company_id (some current.user_id) "estimate.rejected" "estimate"
      estimate.id (("reason", text reason) ∷ [])
  pure rejected
