-- ===== src/Sales/ChangeOrders.antt =====
-- Change orders: backend/app/routers/change_orders.py, with `capture_esignature` of
-- backend/app/services/esignature.py.
pub mod Signed
use new_builders_stream.Prelude.{
  ℕ, ◌+◌, ◌*◌, leb, Bool, true, false, not, ◌||◌, ◌==◌, String, Option, some, none, List, [], ◌∷◌,
}
use new_builders_stream.Prelude.Int.{ℤ}
use new_builders_stream.Prelude.Table.{replace}
use new_builders_stream.Money.{Decimal, quantize_cents}
use new_builders_stream.Models.{
  Db, Session, CurrentUser, Role, client, estimation, Esignature, ProjectStatus, ChangeOrder,
  ChangeOrderStatus, text,
}
use new_builders_stream.Core.Exec.{
  Exec, not_found, conflict, too_large, unprocessable, pure, modify, require, fetch, uuid4, ◌>>=◌,
  ◌>>◌,
}
use new_builders_stream.Core.Access.{post, authorize_module, same_role}
use new_builders_stream.Core.Audit.{write_audit_log}
use new_builders_stream.Core.Lookup.{
  visible_row, get_project_or_404, require_client_access_to_project,
}
use new_builders_stream.Sales.Projects.{project_roles, change_order_is_pending}

abbrev pub signer_roles : List Role
signer_roles = client ∷ []

unfoldable pub change_order_row : Session → ℕ → Db → Option ChangeOrder
unfolding visible_row
change_order_row session i db =
    visible_row session (λ r. r.id) (λ r. r.company_id) i db.change_orders

-- `_get_change_order_or_404`.
unfoldable pub get_change_order_or_404 : CurrentUser → ℕ → Exec ChangeOrder
unfolding change_order_row
get_change_order_or_404 current i = do
  change_order ← fetch (not_found "Change Order not found") (change_order_row current.session i)
  require_client_access_to_project current change_order.project_id "Change Order not found"
  pure change_order

is_active : ProjectStatus → Bool
is_active ProjectStatus.active = true
is_active _ = false

pub record ChangeOrderCreateRequest : Type 0 where
  pub description : String
  pub cost_delta : Decimal
  pub schedule_impact_days : ℤ

unfoldable pub create_change_order : CurrentUser → ℕ → ChangeOrderCreateRequest → Exec ChangeOrder
unfolding is_active
create_change_order current project_id payload = do
  authorize_module current project_roles post estimation
  project ← get_project_or_404 current project_id
  require (is_active project.status)
      (conflict "Change Orders can only be created against an active Project")
  id ← uuid4
  let change_order : ChangeOrder = record {
    id = id;
    project_id = project.id;
    company_id = project.company_id;
    description = payload.description;
    cost_delta = quantize_cents payload.cost_delta;
    schedule_impact_days = payload.schedule_impact_days;
    status = ChangeOrderStatus.pending;
    esignature_id = none;
  }
  modify (λ db. record db { change_orders = change_order ∷ db.change_orders })
  pure change_order

-- The flush of a changed row.
unfoldable pub update_change_order : ChangeOrder → Exec (Unit {0})
update_change_order r =
    modify (λ db. record db { change_orders = replace (λ x. x.id) r db.change_orders })

-- The signature that a client sends; the artifact is a file outside the database.
pub record SignatureForm : Type 0 where
  pub signer_name : String
  pub signer_email : String
  pub ip_address : String
  pub artifact_size : ℕ

-- `max_signature_upload_bytes`.
max_signature_upload_bytes : ℕ
max_signature_upload_bytes = 1 * 1024 * 1024

-- `read_upload_limited`: an artifact of more bytes than the limit is refused.
unfoldable pub fits_upload : SignatureForm → Bool
unfolding max_signature_upload_bytes
fits_upload form = leb form.artifact_size max_signature_upload_bytes

-- `capture_esignature`.
unfoldable pub capture_esignature : CurrentUser → ℕ → String → SignatureForm → Exec ℕ
capture_esignature current company_id document_type form = do
  id ← uuid4
  modify λ db. record db {
    esignatures =
        record {
          id = id;
          company_id = company_id;
          signer_name = form.signer_name;
          signer_email = form.signer_email;
          signed_by_user_id = current.user_id;
          ip_address = form.ip_address;
          document_type = document_type;
        }
        ∷ db.esignatures;
  }
  pure id

-- From the signature to the response.
unfoldable pub sign_change_order : CurrentUser → ChangeOrder → SignatureForm → Exec ChangeOrder
sign_change_order current change_order form = do
  esignature_id ← capture_esignature current change_order.company_id "change_order" form
  let approved : ChangeOrder = record change_order {
    esignature_id = some esignature_id;
    status = ChangeOrderStatus.approved;
  }
  update_change_order approved
  write_audit_log change_order.company_id (some current.user_id) "change_order.approved"
      "change_order" change_order.id []
  pure approved

-- `_require_change_order_pending` is the test of `change_order_is_pending`. The comparison of the
-- addresses, `strip().casefold()` on both sides, is `same_email`.
module _ (same_email : String → String → Bool) where
  -- `require_signer_is_caller`: nothing is asked of the roles other than `client`.
  unfoldable pub require_signer_is_caller : CurrentUser → String → Exec (Unit {0})
  require_signer_is_caller current signer_email =
      require (not (same_role current.role client) || same_email signer_email current.email)
        (unprocessable "signer_email must match the signed-in account's email address")

  unfoldable pub approve_change_order : CurrentUser → ℕ → SignatureForm → Exec ChangeOrder
  unfolding require_signer_is_caller fits_upload
  approve_change_order current i form = do
    authorize_module current signer_roles post estimation
    change_order ← get_change_order_or_404 current i
    require (change_order_is_pending change_order.status)
        (conflict "Change Order must be in 'pending' status")
    require_signer_is_caller current form.signer_email
    require (fits_upload form) (too_large "Uploaded file exceeds the limit")
    sign_change_order current change_order form

unfoldable pub reject_change_order : CurrentUser → ℕ → String → Exec ChangeOrder
reject_change_order current i reason = do
  authorize_module current signer_roles post estimation
  change_order ← get_change_order_or_404 current i
  require (change_order_is_pending change_order.status)
      (conflict "Change Order must be in 'pending' status")
  let rejected : ChangeOrder = record change_order { status = ChangeOrderStatus.rejected }
  update_change_order rejected
  write_audit_log change_order.company_id (some current.user_id) "change_order.rejected"
      "change_order" change_order.id (("reason", text reason) ∷ [])
  pure rejected
