-- ===== src/Sales/Leads.antt =====
-- Leads: backend/app/routers/leads.py, with backend/app/services/lead_transitions.py,
-- concurrency.py and lead_won_handler.py.
pub mod Pipeline
use package.text.Mathlib.Text.{◌==◌ as str_eq}
use new_builders_stream.Prelude.{
  ℕ, ◌+◌, ◌≡◌, Bool, true, false, not, ◌&&◌, ◌||◌, ◌==◌, String, Option, some, none, List, [], ◌∷◌,
  ◌^◌, if◌then◌else◌,
}
use new_builders_stream.Prelude.Int.{pos, ◌*ℤ◌, leb_ℤ}
use new_builders_stream.Prelude.Table.{replace}
use new_builders_stream.Money.{same_decimal, Decimal}
use new_builders_stream.Models.{
  Db, Session, CurrentUser, Role, admin, project_manager, Lead, LeadStatus, Project, ProjectStatus,
  uuid, text,
}
use new_builders_stream.Core.Exec.{
  Exec, not_found, conflict, server_error, pure, modify, require, or_raise, fetch, uuid4, ◌>>=◌,
  ◌>>◌,
}
use new_builders_stream.Core.Access.{post, patch, authorize_write}
use new_builders_stream.Core.Audit.{write_audit_log}
use new_builders_stream.Core.Lookup.{visible_row}
use new_builders_stream.Core.Events.{EventHandler, handle_lead_won, lead_won, publish}

-- LEAD_TRANSITIONS.
unfoldable pub is_legal_transition : LeadStatus → LeadStatus → Bool
is_legal_transition LeadStatus.new LeadStatus.contacted = true
is_legal_transition LeadStatus.new LeadStatus.lost = true
is_legal_transition LeadStatus.contacted LeadStatus.estimating = true
is_legal_transition LeadStatus.contacted LeadStatus.lost = true
is_legal_transition LeadStatus.estimating LeadStatus.qualified = true
is_legal_transition LeadStatus.estimating LeadStatus.lost = true
is_legal_transition LeadStatus.qualified LeadStatus.won = true
is_legal_transition LeadStatus.qualified LeadStatus.lost = true
is_legal_transition _ _ = false

status_code : LeadStatus → ℕ
status_code LeadStatus.new = 0
status_code LeadStatus.contacted = 1
status_code LeadStatus.estimating = 2
status_code LeadStatus.qualified = 3
status_code LeadStatus.won = 4
status_code LeadStatus.lost = 5

unfoldable pub same_status : LeadStatus → LeadStatus → Bool
unfolding status_code
same_status a b = status_code a == status_code b

status_name : LeadStatus → String
status_name LeadStatus.new = "new"
status_name LeadStatus.contacted = "contacted"
status_name LeadStatus.estimating = "estimating"
status_name LeadStatus.qualified = "qualified"
status_name LeadStatus.won = "won"
status_name LeadStatus.lost = "lost"

unfoldable pub is_won : LeadStatus → Bool
is_won LeadStatus.won = true
is_won _ = false

abbrev pub lead_roles : List Role
lead_roles = admin ∷ project_manager ∷ []

unfoldable pub lead_row : Session → ℕ → Db → Option Lead
unfolding visible_row
lead_row session lead_id db = visible_row session (λ r. r.id) (λ r. r.company_id) lead_id db.leads

-- `_get_lead_or_404`.
unfoldable pub get_lead_or_404 : CurrentUser → ℕ → Exec Lead
unfolding lead_row
get_lead_or_404 current lead_id =
    fetch (not_found "Lead not found") (lead_row current.session lead_id)

pub record LeadCreateRequest : Type 0 where
  pub contact_name : String
  pub project_name : String
  pub email : String
  pub phone : Option String
  pub project_type : String
  pub estimated_value : Option Decimal
  pub notes : Option String

unfoldable pub create_lead : CurrentUser → LeadCreateRequest → Exec Lead
create_lead current payload = do
  authorize_write current lead_roles post
  id ← uuid4
  let lead : Lead = record {
    id = id;
    company_id = current.company_id;
    contact_name = payload.contact_name;
    project_name = payload.project_name;
    email = payload.email;
    phone = payload.phone;
    status = LeadStatus.new;
    estimated_value = payload.estimated_value;
    project_type = payload.project_type;
    notes = payload.notes;
    updated_at = current.session.now;
  }
  modify (λ db. record db { leads = lead ∷ db.leads })
  write_audit_log current.company_id (some current.user_id) "lead.created" "lead" id []
  pure lead

-- A field of a PATCH body: left out, or sent, perhaps as null.
pub data Field (A : Type 0) : Type 0 where
  unset : Field A
  sent : Option A → Field A

pub record LeadUpdateRequest : Type 0 where
  pub contact_name : Field String
  pub project_name : Field String
  pub email : Field String
  pub phone : Field String
  pub project_type : Field String
  pub estimated_value : Field Decimal
  pub notes : Field String
  pub status : Option LeadStatus
  pub expected_updated_at : Option ℕ

module _ {A : Type 0} where
  -- `setattr` on a column that takes NULL, and on one that does not: its flush fails.
  nullable : Field A → Option A → Option A
  nullable unset old = old
  nullable (sent value) old = value

  required : Field A → A → Option A
  required unset old = some old
  required (sent value) old = value

  same_option : (A → A → Bool) → Option A → Option A → Bool
  same_option same none none = true
  same_option same (some a) (some b) = same a b
  same_option same _ _ = false

pub same_fields : Lead → Lead → Bool
unfolding same_option same_decimal
same_fields a b =
    str_eq a.contact_name b.contact_name
    && (str_eq a.project_name b.project_name
        && (str_eq a.email b.email
            && (same_option str_eq a.phone b.phone
                && (str_eq a.project_type b.project_type
                    && (same_option same_decimal a.estimated_value b.estimated_value
                        && same_option str_eq a.notes b.notes)))))

-- Whether a flush finds no column changed.
unfoldable pub same_columns : Lead → Lead → Bool
unfolding same_status same_fields
same_columns a b = same_status a.status b.status && same_fields a b

and_then : {A B : Type 0} → Option A → (A → Option B) → Option B
and_then none k = none
and_then (some a) k = k a

-- The fields of the request, all but the status; none if one that must have a value is null.
unfoldable pub with_fields : LeadUpdateRequest → Lead → Option Lead
unfolding nullable required and_then
with_fields payload lead =
    and_then (required payload.contact_name lead.contact_name) λ contact_name.
      and_then (required payload.project_name lead.project_name) λ project_name.
        and_then (required payload.email lead.email) λ email.
          and_then (required payload.project_type lead.project_type) λ project_type.
            some (record lead {
              contact_name = contact_name;
              project_name = project_name;
              email = email;
              phone = nullable payload.phone lead.phone;
              project_type = project_type;
              estimated_value = nullable payload.estimated_value lead.estimated_value;
              notes = nullable payload.notes lead.notes;
            })

-- `guard_stale_write`: an edit from an older version of the row is refused.
unfoldable pub is_current : Option ℕ → ℕ → Bool
is_current none updated_at = true
is_current (some expected) updated_at = updated_at == expected

-- `requested_status is not None and requested_status != previous_status`.
unfoldable pub status_changing : Option LeadStatus → Lead → Bool
unfolding same_status
status_changing none lead = false
status_changing (some s) lead = not (same_status s lead.status)

unfoldable pub requested : Option LeadStatus → Lead → LeadStatus
requested none lead = lead.status
requested (some s) lead = s

-- The flush: the row is written, with a new time, only if a column has changed.
unfoldable pub stamped : Session → Lead → Lead → Lead
unfolding same_columns
stamped session old lead =
    if same_columns old lead then old else record lead { updated_at = session.now }

unfoldable pub update_row : Lead → Exec (Unit {0})
update_row lead = modify (λ db. record db { leads = replace (λ r. r.id) lead db.leads })

-- The payload of LEAD_WON that its handler reads.
pub record LeadWon : Type 0 where
  pub lead_id : ℕ
  pub company_id : ℕ
  pub project_name : String
  pub actor_id : Option ℕ

-- `handle_lead_won`: a draft of a project in the lead's company.
unfoldable pub lead_was_won : LeadWon → Exec (Unit {0})
lead_was_won p = do
  id ← uuid4
  let project : Project = record {
    id = id;
    company_id = p.company_id;
    lead_id = some p.lead_id;
    name = p.project_name;
    site_address = "";
    status = ProjectStatus.draft;
    projected_start_date = none;
  }
  modify (λ db. record db { projects = project ∷ db.projects })
  write_audit_log p.company_id p.actor_id "project.drafted_from_lead" "project" id
      (("lead_id", uuid p.lead_id) ∷ [])

-- No other handler is registered for this event.
unfoldable pub call_won : EventHandler → LeadWon → Exec (Unit {0})
call_won handle_lead_won p = lead_was_won p
call_won _ p = pure tt

-- `publish("LEAD_WON", …)`, if the lead was won.
unfoldable pub publish_won : CurrentUser → Lead → Exec (Unit {0})
unfolding is_won
publish_won current lead =
    if is_won lead.status
    then publish lead_won call_won (record {
      lead_id = lead.id;
      company_id = lead.company_id;
      project_name = lead.project_name;
      actor_id = some current.user_id;
    })
    else pure tt

-- The audit entry of a change of status, and its event.
unfoldable pub status_changed : CurrentUser → LeadStatus → Lead → Exec (Unit {0})
unfolding status_name
status_changed current previous lead = do
  write_audit_log current.company_id (some current.user_id) "lead.status_changed" "lead" lead.id
      (("from", text (status_name previous)) ∷ ("to", text (status_name lead.status)) ∷ [])
  publish_won current lead

-- The end of the route: the row, the audit entry and the event of a change, and the response.
unfoldable pub write_lead : CurrentUser → Bool → LeadStatus → Lead → Exec Lead
write_lead current changing previous written = do
  update_row written
  if changing then status_changed current previous written else pure tt
  pure written

unfoldable pub update_lead : CurrentUser → ℕ → LeadUpdateRequest → Exec Lead
unfolding is_current status_changing requested stamped with_fields write_lead
update_lead current lead_id payload = do
  authorize_write current lead_roles patch
  lead ← get_lead_or_404 current lead_id
  require (is_current payload.expected_updated_at lead.updated_at)
      (conflict "This lead was changed by someone else after you opened it")
  let new_status : LeadStatus = requested payload.status lead
  let changing : Bool = status_changing payload.status lead
  require (not changing || is_legal_transition lead.status new_status)
      (conflict "Illegal lead status transition")
  edited ←
      or_raise (server_error "null value in a column that takes none") (with_fields payload lead)
  write_lead current changing lead.status
      (stamped current.session lead (record edited { status = new_status }))
