-- ===== src/Sales/Projects/Transitions.antt =====
-- The status of a project under `update_project_status` of backend/app/routers/projects.py.
use new_builders_stream.Prelude.{
  ℕ, ◌≤◌, ◌≡◌, refl, Bool, true, false, not, ◌&&◌, ltb, arith, ◌⊎◌, Bool-cases, inl, inr,
}
use new_builders_stream.Models.{Db, CurrentUser, Project, ProjectStatus}
use new_builders_stream.Core.Exec.{Result, ok}
use new_builders_stream.Core.Exec.Reads.{after_read-eq-ok, require-ok, returns-ok}
use new_builders_stream.Core.Audit.{write_audit_log}
use new_builders_stream.Core.Access.Laws.{authorize_write-Reads}
use new_builders_stream.Core.Access.{patch, authorize_write}
use new_builders_stream.Core.Lookup.Laws.{get_project_or_404-Reads}
use new_builders_stream.Core.Lookup.{get_project_or_404}
use new_builders_stream.Sales.Projects.{
  ProjectStatusUpdateRequest, is_legal_transition, same_status, is_completed, pending_count,
  project_roles, update_project, publish_completed, change_status, update_project_status,
}

-- How far a project has come; a suspended project is as far as an active one.
pub stage : ProjectStatus → ℕ
stage ProjectStatus.draft = 0
stage ProjectStatus.pre_construction = 1
stage ProjectStatus.active = 2
stage ProjectStatus.suspended = 2
stage ProjectStatus.completed = 3
stage ProjectStatus.archived = 4

-- A legal transition never leads to an earlier stage, and only between active and suspended it
-- leads to the same.
legal-stage : (a b : ProjectStatus) → is_legal_transition a b ≡ true → stage a ≤ stage b
unfolding is_legal_transition stage
legal-stage a b h = ground arith

not-false : (b : Bool) → not b ≡ true → b ≡ false
not-false true h = absurd (cc)
not-false false h = refl

change_status-allowed :
    (current : CurrentUser) (project changed : Project) (body : ProjectStatusUpdateRequest)
    (db db' : Db)
    → change_status current project body db ≡ (ok changed, db')
    → (changed ≡ record project { status = body.status })
      × (is_legal_transition project.status body.status ≡ true)
      × ((is_completed body.status && ltb 0 (pending_count current.session project.id db)) ≡ false)
unfolding change_status update_project write_audit_log publish_completed
change_status-allowed current project changed body db db' h =
    let (legal, h1) = require-ok (is_legal_transition project.status body.status) _ _ db h in
    let (free, h2) =
      require-ok
        (not (is_completed body.status && ltb 0 (pending_count current.session project.id db))) _ _
        db h1 in
    (
      returns-ok (publish_completed current (record project { status = body.status })) _ _ h2,
      legal,
      not-false _ free,
    )

-- When `update_project_status` returns a project, it read the project's row (a row that
-- `get_project_or_404` gives), and either the status requested is the one it has and the row is
-- returned as it is, or the transition is legal and the row is returned with only its status
-- changed; a project is completed only if none of its visible change orders is pending.
pub update_project_status_lem :
    (current : CurrentUser) (i : ℕ) (body : ProjectStatusUpdateRequest) (changed : Project)
    (db db' : Db)
    → update_project_status current i body db ≡ (ok changed, db')
    → (project : Project) × (get_project_or_404 current i db ≡ (ok project, db))
      × (((same_status body.status project.status ≡ true) × (changed ≡ project) × (db' ≡ db))
          ⊎ ((changed ≡ record project { status = body.status })
              × (is_legal_transition project.status body.status ≡ true)
              × (stage project.status ≤ stage body.status)
              × ((is_completed body.status && ltb 0 (pending_count current.session project.id db))
                  ≡ false)))
unfolding update_project_status
update_project_status_lem current i body changed db db' h =
    let (_, _, h1) =
      after_read-eq-ok (authorize_write current project_roles patch) _ db
        (authorize_write-Reads _ _ _) h in
    let (project, row, h2) =
      after_read-eq-ok (get_project_or_404 current i) _ db (get_project_or_404-Reads _ _) h1 in
    (
      project,
      row,
      elim (Bool-cases (same_status body.status project.status)) [
        | inl same ↦ let (a, b) = unchanged (rw same at h2) in inl (same, a, b)
        | inr other ↦
            let (changed, legal, free) =
              change_status-allowed current project changed body db db' (rw other at h2) in
            inr (changed, legal, legal-stage project.status body.status legal, free)
      ],
    )
  where
    unchanged :
        {p : Project}
        → ◌≡◌ {A = Result Project × Db} (ok p, db) (ok changed, db')
        → (changed ≡ p) × (db' ≡ db)
    unchanged q = (cc, cc)
