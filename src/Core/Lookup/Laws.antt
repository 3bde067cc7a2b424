-- ===== src/Core/Lookup/Laws.antt =====
-- The lookups of Lookup.antt as actions that read.
use new_builders_stream.Prelude.{ℕ, ◌≡◌, true, String, some, List, arith, Option-cases, inl, inr}
use new_builders_stream.Prelude.Table.{find}
use new_builders_stream.Models.{Session, CurrentUser, Estimate}
use new_builders_stream.Core.Exec.Reads.{Reads, Reads-fetch, Reads-test, reads_rules}
use new_builders_stream.Core.Lookup.{
  visible_row, require_client_access_to_project, require_client_access_to_estimate,
  get_project_or_404, get_subcontractor_or_404,
}

pub require_client_access_to_project-Reads :
    (current : CurrentUser) (project_id : ℕ) (detail : String)
    → Reads (require_client_access_to_project current project_id detail)
unfolding require_client_access_to_project
require_client_access_to_project-Reads current project_id detail = Reads-test _ _

pub require_client_access_to_estimate-Reads :
    (current : CurrentUser) (estimate : Estimate)
    → Reads (require_client_access_to_estimate current estimate)
unfolding require_client_access_to_estimate
require_client_access_to_estimate-Reads current estimate = Reads-test _ _

pub get_project_or_404-Reads :
    (current : CurrentUser) (project_id : ℕ) → Reads (get_project_or_404 current project_id)
unfolding get_project_or_404
get_project_or_404-Reads current project_id =
    search (reads_rules, require_client_access_to_project-Reads)

pub get_subcontractor_or_404-Reads :
    (current : CurrentUser) (i : ℕ) → Reads (get_subcontractor_or_404 current i)
unfolding get_subcontractor_or_404
get_subcontractor_or_404-Reads current i = Reads-fetch _ _

-- A row that row-level security shows stands in the table under its identifier.
pub visible_row-find :
    {A : Type 0} (session : Session) (key company : A → ℕ) (i : ℕ) (r : A) (rows : List A)
    → visible_row session key company i rows ≡ some r
    → (find key i rows ≡ some r) × (session.visible (company r) ≡ true)
unfolding visible_row
visible_row-find session key company i r rows h = elim (Option-cases (find key i rows)) [
  | inl e ↦ ground arith
  | inr (x, e) ↦ ground arith
]
