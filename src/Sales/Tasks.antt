-- ===== src/Sales/Tasks.antt =====
-- Phases and tasks of a project: backend/app/routers/tasks.py without its two lists. The creation time
-- of a task, the lengths of names and the foreign key of an assignee are left out.
pub mod Patched
use new_builders_stream.Prelude.{
  ℕ, ◌==◌, ◌&&◌, ◌||◌, not, is_none, Bool, true, false, if◌then◌else◌, Option, none, some, String,
  List, [], ◌∷◌,
}
use new_builders_stream.Prelude.Table.{replace, select}
use new_builders_stream.Models.{
  Db, CurrentUser, Role, admin, project_manager, field_crew, Phase, Task, TaskStatus, open_,
  in_progress, done,
}
use new_builders_stream.Core.Exec.{
  Exec, not_found, conflict, forbidden, unprocessable, server_error, pure, modify, require, fetch,
  uuid4, ◌>>=◌, ◌>>◌,
}
use new_builders_stream.Core.Access.{post, patch, delete, same_role, authorize_write}
use new_builders_stream.Core.Lookup.{visible_row, get_project_or_404}
use new_builders_stream.Sales.Projects.{project_roles}

abbrev pub same_status : TaskStatus → TaskStatus → Bool
same_status open_ open_ = true
same_status in_progress in_progress = true
same_status done done = true
same_status _ _ = false

-- `Task.assignee_id == current.user.id`, for a field crew only.
unfoldable pub in_reach : CurrentUser → Task → Bool
in_reach current t =
    not (same_role current.role field_crew)
    || elim t.assignee_id [ none ↦ false | some user_id ↦ user_id == current.user_id ]

unfoldable pub task_row : CurrentUser → ℕ → Db → Option Task
task_row current i db =
    elim (visible_row current.session (λ t. t.id) (λ t. t.company_id) i db.tasks) [
      | none ↦ none
      | some t ↦ if in_reach current t then some t else none
    ]

unfoldable pub get_task_or_404 : CurrentUser → ℕ → Exec Task
get_task_or_404 current i = fetch (not_found "Task not found") (task_row current i)

-- The phase of a project.
unfoldable pub phase_row : CurrentUser → ℕ → ℕ → Db → Option Phase
phase_row current project_id i db =
    elim (visible_row current.session (λ p. p.id) (λ p. p.company_id) i db.phases) [
      | none ↦ none
      | some p ↦ if p.project_id == project_id then some p else none
    ]

unfoldable pub get_phase_or_404 : CurrentUser → ℕ → ℕ → Exec Phase
get_phase_or_404 current project_id i =
    fetch (not_found "Phase not found") (phase_row current project_id i)

pub record PhaseCreateRequest : Type 0 where
  pub name : String
  pub sequence : ℕ

unfoldable pub create_phase : CurrentUser → ℕ → PhaseCreateRequest → Exec Phase
create_phase current project_id payload = do
  authorize_write current project_roles post
  project ← get_project_or_404 current project_id
  id ← uuid4
  let phase : Phase = record {
    id = id;
    project_id = project_id;
    company_id = project.company_id;
    name = payload.name;
    sequence = payload.sequence;
  }
  modify λ db. record db { phases = phase ∷ db.phases }
  pure phase

pub record TaskCreateRequest : Type 0 where
  pub name : String
  pub due_date : Option ℕ
  pub assignee_id : Option ℕ
  pub phase_id : ℕ

unfoldable pub create_task : CurrentUser → ℕ → TaskCreateRequest → Exec Task
create_task current project_id payload = do
  authorize_write current project_roles post
  project ← get_project_or_404 current project_id
  phase ←
      fetch (unprocessable "phase_id must belong to the project in the URL")
        (phase_row current project_id payload.phase_id)
  id ← uuid4
  let task : Task = record {
    id = id;
    phase_id = payload.phase_id;
    project_id = phase.project_id;
    company_id = project.company_id;
    name = payload.name;
    assignee_id = payload.assignee_id;
    due_date = payload.due_date;
    status = open_;
  }
  modify λ db. record db { tasks = task ∷ db.tasks }
  pure task

-- A field of a PATCH that was set, maybe to null, is `some`.
abbrev pub or_old : {A : Type 0} → Option A → A → A
or_old none old = old
or_old (some new) old = new

abbrev pub is_null : {A : Type 0} → Option (Option A) → Bool
is_null (some none) = true
is_null _ = false

abbrev pub set_or_old : {A : Type 0} → Option (Option A) → A → A
set_or_old (some (some new)) old = new
set_or_old _ old = old

pub record PhaseUpdateRequest : Type 0 where
  pub name : Option (Option String)
  pub sequence : Option (Option ℕ)

-- A null in a column that has none fails the flush.
unfoldable pub update_phase : CurrentUser → ℕ → ℕ → PhaseUpdateRequest → Exec Phase
update_phase current project_id i payload = do
  authorize_write current project_roles patch
  get_project_or_404 current project_id
  phase ← get_phase_or_404 current project_id i
  require (not (is_null payload.name || is_null payload.sequence))
      (server_error "null value in column")
  let updated : Phase = record phase {
    name = set_or_old payload.name phase.name;
    sequence = set_or_old payload.sequence phase.sequence;
  }
  modify λ db. record db { phases = replace (λ p. p.id) updated db.phases }
  pure updated

-- The tasks go with their phase (ON DELETE CASCADE).
unfoldable pub delete_phase : CurrentUser → ℕ → ℕ → Exec (Unit {0})
delete_phase current project_id i = do
  authorize_write current project_roles delete
  get_project_or_404 current project_id
  phase ← get_phase_or_404 current project_id i
  modify λ db. record db {
    phases = select (λ p. not (p.id == phase.id)) db.phases;
    tasks = select (λ t. not (t.phase_id == phase.id)) db.tasks;
  }

pub record TaskUpdateRequest : Type 0 where
  pub name : Option (Option String)
  pub due_date : Option (Option ℕ)
  pub status : Option (Option TaskStatus)
  pub assignee_id : Option (Option ℕ)
  pub expected_status : Option TaskStatus

abbrev pub patch_roles : List Role
patch_roles = admin ∷ project_manager ∷ field_crew ∷ []

unfoldable pub is_as_expected : Option TaskStatus → TaskStatus → Bool
is_as_expected none status = true
is_as_expected (some expected) status = same_status status expected

-- `set(update_fields) - {"status"}` is not empty.
unfoldable pub sets_more : TaskUpdateRequest → Bool
sets_more payload =
    not (is_none payload.name && (is_none payload.due_date && is_none payload.assignee_id))

unfoldable pub patched : TaskUpdateRequest → Task → Task
patched payload t = record t {
  name = set_or_old payload.name t.name;
  due_date = or_old payload.due_date t.due_date;
  status = set_or_old payload.status t.status;
  assignee_id = or_old payload.assignee_id t.assignee_id;
}

unfoldable pub patch_task : CurrentUser → ℕ → TaskUpdateRequest → Exec Task
patch_task current i payload = do
  authorize_write current patch_roles patch
  task ← get_task_or_404 current i
  require (is_as_expected payload.expected_status task.status)
      (conflict "This task has another status than expected")
  require (not (same_role current.role field_crew && sets_more payload))
      (forbidden "field_crew may only update 'status'")
  require (not (is_null payload.name || is_null payload.status))
      (server_error "null value in column")
  modify λ db. record db { tasks = replace (λ t. t.id) (patched payload task) db.tasks }
  pure (patched payload task)

unfoldable pub delete_task : CurrentUser → ℕ → Exec (Unit {0})
delete_task current i = do
  authorize_write current project_roles delete
  task ← get_task_or_404 current i
  modify λ db. record db { tasks = select (λ t. not (t.id == task.id)) db.tasks }
