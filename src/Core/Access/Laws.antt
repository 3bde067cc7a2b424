-- ===== src/Core/Access/Laws.antt =====
-- The access checks of Access.antt as actions that read.
use new_builders_stream.Prelude.{List, Bool-cases, inl, inr}
use new_builders_stream.Models.{Role, PlanModule, CurrentUser}
use new_builders_stream.Core.Exec.Reads.{Reads, Reads-require, Reads-test, Reads-bind, reads_rules}
use new_builders_stream.Core.Access.{
  is_safe, require_role, block_if_read_only, Method, require_module, authorize_write,
  authorize_module,
}

require_role-Reads :
    (current : CurrentUser) (roles : List Role) → Reads (require_role current roles)
unfolding require_role
require_role-Reads current roles = search reads_rules

block_if_read_only-Reads :
    (current : CurrentUser) (method : Method) → Reads (block_if_read_only current method)
unfolding block_if_read_only
block_if_read_only-Reads current method = elim (Bool-cases (is_safe method)) [
  | inl s ↦ record { same = λ db. rw s }
  | inr s ↦ record { same = λ db. rw s ((Reads-require _ _).same db) }
]

require_module-Reads : (current : CurrentUser) (m : PlanModule) → Reads (require_module current m)
unfolding require_module
require_module-Reads current m = Reads-test _ _

pub authorize_write-Reads :
    (current : CurrentUser) (roles : List Role) (method : Method)
    → Reads (authorize_write current roles method)
unfolding authorize_write
authorize_write-Reads current roles method =
    search (Reads-bind, require_role-Reads, block_if_read_only-Reads)

pub authorize_module-Reads :
    (current : CurrentUser) (roles : List Role) (method : Method) (m : PlanModule)
    → Reads (authorize_module current roles method m)
unfolding authorize_module
authorize_module-Reads current roles method m =
    search (Reads-bind, authorize_write-Reads, require_module-Reads)
