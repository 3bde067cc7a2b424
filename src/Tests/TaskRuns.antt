-- ===== src/Tests/TaskRuns.antt =====
-- A field crew member sets the status of a task of its own.
use new_builders_stream.Prelude.{◌≡◌, refl, true, if◌then◌else◌, none, some, [], ◌∷◌}
use new_builders_stream.Prelude.Table.{replace}
use new_builders_stream.Models.{Db, CurrentUser, field_crew, Task, in_progress, done}
use new_builders_stream.Core.Access.{same_role, authorize_write}
use new_builders_stream.Core.Lookup.{visible_row}
use new_builders_stream.Sales.Tasks.{
  TaskUpdateRequest, in_reach, task_row, get_task_or_404, is_as_expected, sets_more, patched,
  patch_task,
}
use new_builders_stream.Sales.Tasks.Patched.{patch_task_lem}
use new_builders_stream.Tests.Sample.{bookkeeper, start}

abbrev crew : CurrentUser
crew = record bookkeeper { role = field_crew }

abbrev pour : Task
pour = record {
  id = 60;
  phase_id = 50;
  project_id = 5;
  company_id = 2;
  name = "Pour the slab";
  assignee_id = some 7;
  due_date = some 510;
  status = in_progress;
}

abbrev poured : Task
poured = record pour { status = done }

abbrev mark_done : TaskUpdateRequest
mark_done = record {
  name = none;
  due_date = none;
  status = some (some done);
  assignee_id = none;
  expected_status = some in_progress;
}

abbrev on_site : Db
on_site = record start { tasks = pour ∷ [] }

patch_task_lem_example :
    (t : Task) × (task_row crew 60 on_site ≡ some t)
    × (in_reach crew t ≡ true)
    × (is_as_expected (some in_progress) t.status ≡ true)
    × (poured ≡ patched mark_done t)
    × (poured ≡ (if same_role field_crew field_crew then record t { status = done } else poured))
    × ((poured ∷ []) ≡ replace (λ x. x.id) poured (pour ∷ []))
unfolding patch_task get_task_or_404 task_row in_reach is_as_expected sets_more patched
    authorize_write visible_row replace
patch_task_lem_example =
    patch_task_lem crew 60 mark_done poured on_site (record start { tasks = poured ∷ [] }) refl
