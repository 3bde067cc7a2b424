-- ===== src/Sales/Tasks/Patched.antt =====
-- What a PATCH of a task may change, and where a new task stands.
use mathlib.Core.Path.{subst}
use new_builders_stream.Prelude.{
  ℕ, ◌≡◌, refl, sym, ap, ◌∙◌, String, is_none, not, ◌&&◌, ◌||◌, Bool, true, false, if◌then◌else◌,
  Option, none, some, arith,
}
use new_builders_stream.Prelude.Table.{replace}
use new_builders_stream.Models.{Db, CurrentUser, field_crew, Task, TaskStatus}
use new_builders_stream.Core.Exec.{Result, ok}
use new_builders_stream.Core.Exec.Reads.{after_read-eq-ok, require-ok, or_raise-ok}
use new_builders_stream.Core.Access.{patch, same_role, authorize_write}
use new_builders_stream.Core.Access.Laws.{authorize_write-Reads}
use new_builders_stream.Core.Lookup.{visible_row}
use new_builders_stream.Sales.Tasks.{
  task_row, in_reach, is_as_expected, sets_more, patched, TaskUpdateRequest, patch_roles,
  get_task_or_404, patch_task, is_null, or_old, set_or_old,
}

-- A field crew changes nothing but the status.
keeps_rest :
    (payload : TaskUpdateRequest) (t : Task)
    → sets_more payload ≡ false
    → patched payload t ≡ record t { status = (patched payload t).status }
unfolding patched sets_more
keeps_rest payload t h =
    go payload.name payload.due_date payload.assignee_id (set_or_old payload.status t.status) h
  where
    go :
        (n : Option (Option String)) (d a : Option (Option ℕ)) (status : TaskStatus)
        → not (is_none n && (is_none d && is_none a)) ≡ false
        → ◌≡◌ {A = Task}
            (record t {
              name = set_or_old n t.name;
              due_date = or_old d t.due_date;
              status = status;
              assignee_id = or_old a t.assignee_id;
            })
            (record t { status = status })
    go none none none status h = refl
    go (some n) d a status h = absurd (cc)
    go none (some d) a status h = absurd (cc)
    go none none (some a) status h = absurd (cc)

crew_rest :
    (crew : Bool) (payload : TaskUpdateRequest) (t : Task)
    → not (crew && sets_more payload) ≡ true
    → patched payload t
      ≡ (if crew then record t { status = (patched payload t).status } else patched payload t)
crew_rest false payload t h = refl
crew_rest true payload t h = keeps_rest payload t (ground arith)

task_row-in_reach :
    (current : CurrentUser) (i : ℕ) (t : Task) (db : Db)
    → task_row current i db ≡ some t
    → in_reach current t ≡ true
unfolding task_row
task_row-in_reach current i t db =
    go (visible_row current.session (λ x. x.id) (λ x. x.company_id) i db.tasks)
  where
    given : (b : Bool) (x : Task) → (if b then some x else none) ≡ some t → (b ≡ true) × (x ≡ t)
    given true x h = (refl, cc)
    given false x h = absurd (cc)

    go :
        (o : Option Task)
        → (elim o [ none ↦ none | some x ↦ if in_reach current x then some x else none ]) ≡ some t
        → in_reach current t ≡ true
    go none h = absurd (cc)
    go (some x) h =
        let (reached, same) = given (in_reach current x) x h in
        subst (λ y. in_reach current y ≡ true) same reached

ok_injective :
    {A : Type 0} {a b : A} {c d : Db} → ◌≡◌ {A = Result A × Db} (ok a, c) (ok b, d) → a ≡ b
ok_injective q = cc

module _ (current : CurrentUser) (i : ℕ) (payload : TaskUpdateRequest) where
  -- When patch_task returns a row, it read a task that row-level security shows to the caller (of
  -- its own company or of a branch), and that is assigned to the caller if it is of the field
  -- crew, with the status that the request expected if it named one; the row returned is that one
  -- with the fields of the request, which for a field crew is the status alone, and it has
  -- replaced the old one in the table.
  pub patch_task_lem :
      (r : Task) (db db' : Db)
      → patch_task current i payload db ≡ (ok r, db')
      → (t : Task) × (task_row current i db ≡ some t)
        × (in_reach current t ≡ true)
        × (is_as_expected payload.expected_status t.status ≡ true)
        × (r ≡ patched payload t)
        × (r ≡ (if same_role current.role field_crew then record t { status = r.status } else r))
        × (db'.tasks ≡ replace (λ x. x.id) r db.tasks)
  unfolding patch_task get_task_or_404
  patch_task_lem r db db' h =
      let (_, _, h1) =
        after_read-eq-ok (authorize_write current patch_roles patch) _ db
          (authorize_write-Reads _ _ _) h in
      let (t, row, h2) = or_raise-ok _ (task_row current i db) _ db h1 in
      let (expected, h3) = require-ok (is_as_expected payload.expected_status t.status) _ _ db h2 in
      let (allowed, h4) =
        require-ok (not (same_role current.role field_crew && sets_more payload)) _ _ db h3 in
      let (present, h5) =
        require-ok (not (is_null payload.name || is_null payload.status)) _ _ db h4 in
      let same : patched payload t ≡ r = ok_injective h5 in
      (
        t,
        row,
        task_row-in_reach current i t db row,
        expected,
        sym same,
        subst
            (λ (x : Task).
              x ≡ (if same_role current.role field_crew then record t { status = x.status } else x))
            same (crew_rest (same_role current.role field_crew) payload t allowed),
        sym (ap (λ (x : Result Task × Db). x.1.tasks) h5)
            ∙ ap (λ x. replace (λ y. y.id) x db.tasks) same,
      )
