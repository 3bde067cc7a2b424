-- ===== src/Sales/Estimates/Signature/Frozen.antt =====
-- The routes of backend/app/routers/estimates.py on an estimate that is approved.
use new_builders_stream.Prelude.{ℕ, String, ◌≡◌, refl, ap, ◌∙◌, Bool, true, false, not, some, List}
use new_builders_stream.Models.{Db, CurrentUser, estimation, Estimate, EstimateStatus}
use new_builders_stream.Core.Exec.{Exec, HttpError, err, ◌>>=◌}
use new_builders_stream.Core.Exec.Reads.{after_read-raises, require-raises}
use new_builders_stream.Core.Access.{Method, post, delete, authorize_module}
use new_builders_stream.Models.{Role}
use new_builders_stream.Core.Access.Laws.{authorize_module-Reads}
use new_builders_stream.Core.Audit.{write_audit_log}
use new_builders_stream.Sales.ChangeOrders.{SignatureForm, signer_roles}
use new_builders_stream.Sales.Projects.{project_roles}
use new_builders_stream.Sales.Estimates.{
  is_draft, is_sent, estimate_row, get_estimate_or_404, update_estimate_row,
  calculate_estimate_totals, delete_estimate,
}
use new_builders_stream.Sales.Estimates.Signature.{approve_estimate, reject_estimate}
use new_builders_stream.Sales.Estimates.Signature.Approved.{
  get_estimate_or_404-Reads, get_estimate_or_404-row,
}

-- A route that reads the estimate and then refuses it.
refused :
    {A : Type 0} (current : CurrentUser) (roles : List Role) (method : Method) (i : ℕ)
    (e : Estimate) (rest : Estimate → Exec A) (db : Db)
    → estimate_row current.session i db ≡ some e
    → ((x : HttpError) × (rest e db ≡ (err x, db)))
    → (x : HttpError) × ((authorize_module current roles method estimation >>= λ _.
            get_estimate_or_404 current i >>= rest)
          db
        ≡ (err x, db))
refused current roles method i e rest db row raises =
    after_read-raises (authorize_module current roles method estimation) _ db
      (authorize_module-Reads _ _ _ _)
      λ _ _.
        after_read-raises (get_estimate_or_404 current i) rest db (get_estimate_or_404-Reads _ _)
          λ x got.
            let same : x ≡ e = cc (get_estimate_or_404-row current i x db got) in rw same raises

not_draft : is_draft EstimateStatus.approved ≡ false
unfolding is_draft
not_draft = refl

not_sent : is_sent EstimateStatus.approved ≡ false
unfolding is_sent
not_sent = refl

-- An estimate that is approved and snapshotted can be neither recalculated, nor deleted, nor approved
-- or rejected: each of these routes raises, and writes nothing.
pub approved_frozen :
    (same_email : String → String → Bool) (current : CurrentUser) (i : ℕ) (form : SignatureForm)
    (reason : String) (e : Estimate) (db : Db)
    → estimate_row current.session i db ≡ some e
    → e.status ≡ EstimateStatus.approved
    → e.is_snapshotted ≡ true
    → ((x : HttpError) × (calculate_estimate_totals current i db ≡ (err x, db)))
      × ((x : HttpError) × (delete_estimate current i db ≡ (err x, db)))
      × ((x : HttpError) × (approve_estimate same_email current i form db ≡ (err x, db)))
      × ((x : HttpError) × (reject_estimate current i reason db ≡ (err x, db)))
unfolding calculate_estimate_totals delete_estimate approve_estimate reject_estimate
    update_estimate_row write_audit_log
approved_frozen same_email current i form reason e db row approved snapshotted = (
  refused current project_roles post i e _ db row
      (require-raises (not e.is_snapshotted) _ _ db (ap not snapshotted)),
  refused current project_roles delete i e _ db row
      (require-raises (is_draft e.status) _ _ db (ap is_draft approved ∙ not_draft)),
  refused current signer_roles post i e _ db row
      (require-raises (is_sent e.status) _ _ db (ap is_sent approved ∙ not_sent)),
  refused current signer_roles post i e _ db row
      (require-raises (is_sent e.status) _ _ db (ap is_sent approved ∙ not_sent)),
)
