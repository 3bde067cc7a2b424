-- ===== src/Sales/Projects/Books.antt =====
-- `update_project_status` of backend/app/routers/projects.py and the books of Billing.
use new_builders_stream.Prelude.{
  ℕ, ◌+◌, arith, String, Option, refl, Bool, true, false, not, ◌==◌, List, if◌then◌else◌,
}
use new_builders_stream.Prelude.Int.{pos, ◌-ℤ◌, leb_ℤ, ℤ}
use new_builders_stream.Models.{Db, Session, CurrentUser, accounting, Project, MetaValue}
use new_builders_stream.Core.Exec.{Exec, Result, pure, ◌>>=◌}
use new_builders_stream.Core.Exec.Reads.{Reads, Reads-pure, Reads-gets, Reads-require}
use new_builders_stream.Core.Exec.Preserves.{
  Preserves, Preserves-Reads, Preserves-if, Preserves-modify, Preserves-bind,
}
use new_builders_stream.Core.Access.{patch, authorize_write, tier_allows}
use new_builders_stream.Core.Access.Laws.{authorize_write-Reads}
use new_builders_stream.Core.Audit.{write_audit_log}
use new_builders_stream.Core.Events.{publish, call_all, handlers}
use new_builders_stream.Core.Lookup.{get_project_or_404}
use new_builders_stream.Core.Lookup.Laws.{get_project_or_404-Reads}
use new_builders_stream.Billing.Ledger.Sound.{IsSound-insert, IsSound-later}
use new_builders_stream.Billing.Bills.Books.{BillsSound, bill_kind}
use new_builders_stream.Billing.Invoices.{is_paid}
use new_builders_stream.Billing.Invoices.Books.{BooksSound, invoice_kind}
use new_builders_stream.Sales.Projects.{
  ProjectCompleted, ProjectStatusUpdateRequest, auto_invoice, project_was_completed, approved_count,
  agreed_total, invoiced_total, call_completed, publish_completed, update_project, change_status,
  is_completed, same_status, project_roles, update_project_status,
}
use new_builders_stream.Sales.Projects.Completed.{final_invoice, auto_invoice-eq}

-- The invoices and the bills are sound.
abbrev pub Both : Db → Type 0
Both db = BooksSound db × BillsSound db

auto_invoice-Both :
    (session : Session) (p : ProjectCompleted) (remainder : ℤ) (db : Db)
    → Both db
    → Both (auto_invoice session p remainder db).1
unfolding is_paid
auto_invoice-Both session p remainder db s = rw (auto_invoice-eq session p remainder db) (
  IsSound-insert invoice_kind s.0 (final_invoice session p remainder db) refl refl,
  IsSound-later bill_kind s.1 (db.next_id + 1) (omega arith),
)

either :
    {A : Type 0} (P : Db → Type 0) (b : Bool) (m k : Result A × Db)
    → P m.1
    → P k.1
    → P (if b then m else k).1
either P true m k hm hk = hm
either P false m k hm hk = hk

project_was_completed-Both :
    (session : Session) (p : ProjectCompleted) (db : Db)
    → Both db
    → Both (project_was_completed session p db).1
unfolding project_was_completed
project_was_completed-Both session p db s =
    either Both (not (tier_allows session p.company_id accounting db)) _ _ s (
      either Both (approved_count session p.project_id db == 0) _ _ s (
        either Both
          (leb_ℤ (agreed_total session p.project_id db -ℤ invoiced_total session p.project_id db)
            (pos 0))
          _ _ s (auto_invoice-Both session p _ db s)))

publish_completed-Preserves :
    (current : CurrentUser) (project : Project) → Preserves Both (publish_completed current project)
unfolding publish_completed publish call_all handlers call_completed
publish_completed-Preserves current project =
    Preserves-if Both (is_completed project.status) _ _
      (Preserves-bind Both (project_was_completed current.session _) _
        (record { keep = project_was_completed-Both current.session _ })
        (λ _. Preserves-Reads Both _ (Reads-pure _)))
      (Preserves-Reads Both _ (Reads-pure _))

bind :
    {A B : Type 0} (m : Exec A) (k : A → Exec B)
    → Preserves Both m
    → ((a : A) → Preserves Both (k a))
    → Preserves Both (m >>= k)
bind m k = Preserves-bind Both m k

reads : {A : Type 0} (m : Exec A) → Reads m → Preserves Both m
reads m r = Preserves-Reads Both m r

written : (project : Project) → Preserves Both (update_project project)
unfolding update_project
written project = Preserves-modify Both _ (λ db s. s)

audited :
    (c : ℕ) (actor : Option ℕ) (action entity : String) (i : ℕ)
    (metadata : List (String × MetaValue))
    → Preserves Both (write_audit_log c actor action entity i metadata)
unfolding write_audit_log
audited c actor action entity i metadata = Preserves-modify Both _ (λ db s. s)

ruleset book_rules = (
  bind, reads, written, audited, publish_completed-Preserves, Reads-pure, Reads-gets, Reads-require,
  authorize_write-Reads, get_project_or_404-Reads,
)

change_status-Preserves :
    (current : CurrentUser) (project : Project) (body : ProjectStatusUpdateRequest)
    → Preserves Both (change_status current project body)
unfolding change_status
change_status-Preserves current project body = search book_rules depth 20

-- The status route, on every branch.
pub update_project_status-Preserves :
    (current : CurrentUser) (i : ℕ) (body : ProjectStatusUpdateRequest)
    → Preserves Both (update_project_status current i body)
unfolding update_project_status
update_project_status-Preserves current i body =
    bind (authorize_write current project_roles patch) _ (reads _ (authorize_write-Reads _ _ _))
      λ _. bind (get_project_or_404 current i) _ (reads _ (get_project_or_404-Reads _ _)) λ project.
        Preserves-if Both (same_status body.status project.status) (pure project)
          (change_status current project body) (reads _ (Reads-pure _))
          (change_status-Preserves current project body)
