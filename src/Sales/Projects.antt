-- ===== src/Sales/Projects.antt =====
-- The status of a project: `update_project_status` of backend/app/routers/projects.py, with
-- backend/app/services/project_transitions.py and project_completed_handler.py.
pub mod Transitions
pub mod Completed
pub mod Books
use new_builders_stream.Prelude.{
  ℕ, ◌<◌, ◌≡◌, ◌+◌, Bool, true, false, not, ◌&&◌, ◌==◌, String, Option, some, none, List, [], ◌∷◌,
  ltb, if◌then◌else◌,
}
use new_builders_stream.Prelude.Int.{ℤ, pos, ◌+ℤ◌, ◌-ℤ◌, leb_ℤ}
use new_builders_stream.Prelude.Table.{replace, sum_where, count_where}
use new_builders_stream.Models.{
  Db, Session, CurrentUser, Role, admin, project_manager, accounting, Project, ProjectStatus,
  EstimateStatus, ChangeOrderStatus, Invoice, InvoiceStatus, uuid, text, null, MetaValue,
}
use new_builders_stream.Core.Exec.{Exec, conflict, pure, gets, modify, require, uuid4, ◌>>=◌, ◌>>◌}
use new_builders_stream.Core.Access.{patch, authorize_write, tier_allows}
use new_builders_stream.Core.Audit.{write_audit_log}
use new_builders_stream.Core.Lookup.{get_project_or_404}
use new_builders_stream.Core.Events.{
  EventHandler, handle_project_completed, project_completed, invoice_created, publish,
}
use new_builders_stream.Core.Sync.{publish_record}
use new_builders_stream.Billing.Invoices.{is_void, next_invoice_number, insert_invoice}

-- PROJECT_TRANSITIONS.
unfoldable pub is_legal_transition : ProjectStatus → ProjectStatus → Bool
is_legal_transition ProjectStatus.draft ProjectStatus.pre_construction = true
is_legal_transition ProjectStatus.pre_construction ProjectStatus.active = true
is_legal_transition ProjectStatus.active ProjectStatus.suspended = true
is_legal_transition ProjectStatus.active ProjectStatus.completed = true
is_legal_transition ProjectStatus.suspended ProjectStatus.active = true
is_legal_transition ProjectStatus.suspended ProjectStatus.completed = true
is_legal_transition ProjectStatus.completed ProjectStatus.archived = true
is_legal_transition _ _ = false

pub status_code : ProjectStatus → ℕ
status_code ProjectStatus.draft = 0
status_code ProjectStatus.pre_construction = 1
status_code ProjectStatus.active = 2
status_code ProjectStatus.suspended = 3
status_code ProjectStatus.completed = 4
status_code ProjectStatus.archived = 5

unfoldable pub same_status : ProjectStatus → ProjectStatus → Bool
unfolding status_code
same_status a b = status_code a == status_code b

status_name : ProjectStatus → String
status_name ProjectStatus.draft = "draft"
status_name ProjectStatus.pre_construction = "pre_construction"
status_name ProjectStatus.active = "active"
status_name ProjectStatus.suspended = "suspended"
status_name ProjectStatus.completed = "completed"
status_name ProjectStatus.archived = "archived"

estimate_is_approved : EstimateStatus → Bool
estimate_is_approved EstimateStatus.approved = true
estimate_is_approved _ = false

pub change_order_is_approved : ChangeOrderStatus → Bool
change_order_is_approved ChangeOrderStatus.approved = true
change_order_is_approved _ = false

unfoldable pub change_order_is_pending : ChangeOrderStatus → Bool
change_order_is_pending ChangeOrderStatus.pending = true
change_order_is_pending _ = false

is_project : ℕ → Option ℕ → Bool
is_project project_id none = false
is_project project_id (some p) = p == project_id

or_zero : Option ℤ → ℤ
or_zero none = pos 0
or_zero (some c) = c

module _ (session : Session) (project_id : ℕ) (db : Db) where
  -- How many approved estimates the project has.
  unfoldable pub approved_count : ℕ
  unfolding estimate_is_approved is_project
  approved_count =
      count_where
        (λ e.
          session.visible e.company_id
          && (is_project project_id e.project_id && estimate_is_approved e.status))
        db.estimates

  -- The sum of their totals.
  pub approved_total : ℤ
  unfolding estimate_is_approved is_project or_zero
  approved_total =
      sum_where
        (λ e.
          session.visible e.company_id
          && (is_project project_id e.project_id && estimate_is_approved e.status))
        (λ e. or_zero e.total) db.estimates

  pub change_order_total : ℤ
  unfolding change_order_is_approved
  change_order_total =
      sum_where
        (λ c.
          session.visible c.company_id
          && (c.project_id == project_id && change_order_is_approved c.status))
        (λ c. c.cost_delta) db.change_orders

  unfoldable pub invoiced_total : ℤ
  unfolding is_void
  invoiced_total =
      sum_where
        (λ i.
          session.visible i.company_id && (i.project_id == project_id && not (is_void i.status)))
        (λ i. i.amount) db.invoices

  -- What was agreed: the approved estimates and the approved changes.
  pub agreed_total : ℤ
  agreed_total = approved_total +ℤ change_order_total

  unfoldable pub pending_count : ℕ
  unfolding change_order_is_pending
  pending_count =
      count_where
        (λ c.
          session.visible c.company_id
          && (c.project_id == project_id && change_order_is_pending c.status))
        db.change_orders

-- The payload of PROJECT_COMPLETED.
pub record ProjectCompleted : Type 0 where
  pub project_id : ℕ
  pub company_id : ℕ
  pub actor_id : ℕ

-- The insert of the final invoice, its audit entry and its event.
unfoldable pub auto_invoice : Session → ProjectCompleted → ℤ → Exec (Unit {0})
auto_invoice session p remainder = do
  invoice_number ← next_invoice_number session p.company_id
  id ← uuid4
  insert_invoice (record {
    id = id;
    project_id = p.project_id;
    company_id = p.company_id;
    estimate_id = none;
    invoice_number = invoice_number;
    amount = remainder;
    status = InvoiceStatus.draft;
    due_date = none;
  })
  write_audit_log p.company_id (some p.actor_id) "invoice.auto_generated" "invoice" id
      (("trigger", text "project_completed") ∷ ("project_id", uuid p.project_id) ∷ [])
  publish_record session invoice_created
      (record { entity_type = "invoice"; entity_id = id; company_id = p.company_id })

-- `handle_project_completed`: an invoice for what was agreed and not yet invoiced.
unfoldable pub project_was_completed : Session → ProjectCompleted → Exec (Unit {0})
unfolding auto_invoice agreed_total
project_was_completed session p db =
    if not (tier_allows session p.company_id accounting db)
    then (pure tt db)
    else if approved_count session p.project_id db == 0
    then (pure tt db)
    else let remainder =
        agreed_total session p.project_id db -ℤ invoiced_total session p.project_id db in
      if leb_ℤ remainder (pos 0) then (pure tt db) else auto_invoice session p remainder db

-- No other handler is registered for this event.
unfoldable pub call_completed : Session → EventHandler → ProjectCompleted → Exec (Unit {0})
call_completed session handle_project_completed p = project_was_completed session p
call_completed session _ p = pure tt

pub record ProjectStatusUpdateRequest : Type 0 where
  pub status : ProjectStatus
  pub reason : Option String

reason_value : Option String → MetaValue
reason_value none = null
reason_value (some s) = text s

abbrev pub project_roles : List Role
project_roles = admin ∷ project_manager ∷ []

unfoldable pub is_completed : ProjectStatus → Bool
is_completed ProjectStatus.completed = true
is_completed _ = false

-- The flush of a changed project.
unfoldable pub update_project : Project → Exec (Unit {0})
update_project project =
    modify (λ db. record db { projects = replace (λ r. r.id) project db.projects })

-- `publish("PROJECT_COMPLETED", …)`, if the project was completed.
unfoldable pub publish_completed : CurrentUser → Project → Exec (Unit {0})
unfolding is_completed
publish_completed current project =
    if is_completed project.status
    then publish project_completed (call_completed current.session) (record {
      project_id = project.id;
      company_id = project.company_id;
      actor_id = current.user_id;
    })
    else pure tt

-- The rest of `update_project_status` for a status that changes.
unfoldable pub change_status : CurrentUser → Project → ProjectStatusUpdateRequest → Exec Project
unfolding is_completed status_name reason_value
change_status current project body = do
  require (is_legal_transition project.status body.status)
      (conflict "Illegal project status transition")
  pending ← gets (pending_count current.session project.id)
  require (not (is_completed body.status && ltb 0 pending))
      (conflict "Cannot complete project: Change Order(s) pending approval")
  let changed : Project = record project { status = body.status }
  update_project changed
  write_audit_log project.company_id (some current.user_id) "project.status_changed" "project"
      project.id
      (("from", text (status_name project.status))
        ∷ ("to", text (status_name body.status))
        ∷ ("reason", reason_value body.reason)
        ∷ [])
  publish_completed current changed
  pure changed

unfoldable pub update_project_status : CurrentUser → ℕ → ProjectStatusUpdateRequest → Exec Project
unfolding change_status
update_project_status current project_id body = do
  authorize_write current project_roles patch
  project ← get_project_or_404 current project_id
  if same_status body.status project.status
      then pure project
      else change_status current project body
