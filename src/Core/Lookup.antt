-- ===== src/Core/Lookup.antt =====
-- Rows as a route sees them: backend/app/services/project_lookup.py, subcontractor_lookup.py and
-- client_scope.py. Row-level security hides the rows of companies outside the caller's tenant.
pub mod Laws
use new_builders_stream.Prelude.{
  ℕ, Bool, true, false, ◌&&◌, ◌||◌, not, ◌==◌, String, Option, none, some, List, [], any,
  if◌then◌else◌,
}
use new_builders_stream.Prelude.Table.{find}
use new_builders_stream.Models.{
  Db, Session, CurrentUser, Role, field_crew, client, Project, Subcontractor, Membership, Task,
  Estimate,
}
use new_builders_stream.Core.Exec.{
  Exec, HttpError, not_found, pure, raise, fetch, require, ◌>>=◌, ◌>>◌,
}
use new_builders_stream.Core.Access.{same_role}

module _ {A : Type 0} where
  -- SELECT … WHERE id = i under row-level security: `scalar_one_or_none()`.
  unfoldable pub visible_row : Session → (A → ℕ) → (A → ℕ) → ℕ → List A → Option A
  unfolding find
  visible_row session key company i rows = elim (find key i rows) [
    | none ↦ none
    | some r ↦ if session.visible (company r) then some r else none
  ]

-- `_has_project_membership` and `_has_lead_membership`.
pub has_membership : Session → ℕ → ℕ → List Membership → Bool
has_membership session parent_id user_id rows =
    any (λ m. session.visible m.company_id && (m.parent_id == parent_id && m.user_id == user_id))
      rows

-- A no-op for every role but `client`.
unfoldable pub require_client_access_to_project : CurrentUser → ℕ → String → Exec (Unit {0})
unfolding same_role has_membership
require_client_access_to_project current project_id detail db =
    require
      (not (same_role current.role client)
        || has_membership current.session project_id current.user_id db.project_clients)
      (not_found detail) db

unfoldable pub require_client_access_to_estimate : CurrentUser → Estimate → Exec (Unit {0})
unfolding same_role has_membership
require_client_access_to_estimate current estimate db =
    require
      (not (same_role current.role client)
        || (elim estimate.project_id [
          | none ↦ false
          | some p ↦ has_membership current.session p current.user_id db.project_clients
        ]
            || elim estimate.lead_id [
              | none ↦ false
              | some l ↦ has_membership current.session l current.user_id db.lead_clients
            ]))
      (not_found "Estimate not found") db

-- `with_field_crew_scope`: a field crew member sees the projects of the tasks assigned to them.
is_assigned : CurrentUser → ℕ → Task → Bool
is_assigned current project_id t =
    t.project_id == project_id
    && elim t.assignee_id [ none ↦ false | some u ↦ u == current.user_id ]

in_field_crew_scope : CurrentUser → ℕ → Db → Bool
unfolding same_role is_assigned
in_field_crew_scope current project_id db =
    not (same_role current.role field_crew) || any (is_assigned current project_id) db.tasks

scoped_project : CurrentUser → ℕ → Db → Option Project
unfolding in_field_crew_scope visible_row
scoped_project current project_id db =
    elim (visible_row current.session (λ p. p.id) (λ p. p.company_id) project_id db.projects) [
      | none ↦ none
      | some p ↦ if in_field_crew_scope current project_id db then some p else none
    ]

unfoldable pub get_project_or_404 : CurrentUser → ℕ → Exec Project
unfolding scoped_project require_client_access_to_project
get_project_or_404 current project_id = do
  project ← fetch (not_found "Project not found") (scoped_project current project_id)
  require_client_access_to_project current project.id "Project not found"
  pure project

unfoldable pub get_subcontractor_or_404 : CurrentUser → ℕ → Exec Subcontractor
unfolding visible_row
get_subcontractor_or_404 current subcontractor_id =
    fetch (not_found "Subcontractor not found") λ db.
      visible_row current.session (λ s. s.id) (λ s. s.company_id) subcontractor_id db.subcontractors
