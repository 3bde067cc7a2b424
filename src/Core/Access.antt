-- ===== src/Core/Access.antt =====
-- backend/app/core/deps.py (require_role, block_if_read_only) and backend/app/core/tier_gating.py.
pub mod Laws
pub mod Gating
pub mod Conditions
pub mod Admission
use new_builders_stream.Prelude.{
  ℕ, Bool, true, false, not, ◌&&◌, ◌==◌, leb, if◌then◌else◌, Option, none, some, List, [], ◌∷◌, any,
}
use new_builders_stream.Prelude.Table.{find}
use new_builders_stream.Models.{
  Db, Role, admin, project_manager, field_crew, accountant, client, Tier, starter, pro, enterprise,
  PlanModule, estimation, compliance, accounting, integrations, child_branches, SubscriptionStatus,
  trialing, active, Session, CurrentUser, CompanyModuleOverride,
}
use new_builders_stream.Core.Exec.{Exec, HttpError, forbidden, pure, gets, require, ◌>>=◌, ◌>>◌}

unfoldable pub same_role : Role → Role → Bool
same_role admin admin = true
same_role project_manager project_manager = true
same_role field_crew field_crew = true
same_role accountant accountant = true
same_role client client = true
same_role _ _ = false

unfoldable pub require_role : CurrentUser → List Role → Exec (Unit {0})
unfolding same_role
require_role current roles =
    require (any (same_role current.role) roles) (forbidden "Requires one of roles")

-- `request.method`.
pub data Method : Type 0 where
  get head options post put patch delete : Method

pub is_safe : Method → Bool
is_safe get = true
is_safe head = true
is_safe options = true
is_safe _ = false

pub in_good_standing : SubscriptionStatus → Bool
in_good_standing trialing = true
in_good_standing active = true
in_good_standing _ = false

-- The caller's root company has a subscription that is neither trialing nor active.
pub is_read_only : CurrentUser → Db → Bool
unfolding find in_good_standing
is_read_only current db =
    let root = current.session.get_root_company_id current.company_id in
    elim (find (λ s. s.company_id) root db.subscriptions) [
      | none ↦ false
      | some s ↦ not (in_good_standing s.status)
    ]

unfoldable pub block_if_read_only : CurrentUser → Method → Exec (Unit {0})
unfolding is_safe is_read_only
block_if_read_only current method db =
    if is_safe method
    then (pure tt db)
    else require (not (is_read_only current db))
        (forbidden "Your subscription requires attention before you can make changes") db

-- TIER_RANK.
unfoldable pub tier_rank : Tier → ℕ
tier_rank starter = 0
tier_rank pro = 1
tier_rank enterprise = 2

-- MODULE_MIN_TIER.
unfoldable pub module_min_tier : PlanModule → Tier
module_min_tier estimation = pro
module_min_tier compliance = pro
module_min_tier accounting = enterprise
module_min_tier integrations = enterprise
module_min_tier child_branches = enterprise

unfoldable pub module_code : PlanModule → ℕ
module_code estimation = 0
module_code compliance = 1
module_code accounting = 2
module_code integrations = 3
module_code child_branches = 4

unfoldable pub root_tier : Session → ℕ → Db → Option Tier
unfolding find
root_tier session company_id db =
    elim (find (λ s. s.company_id) (session.get_root_company_id company_id) db.subscriptions) [
      | none ↦ none
      | some s ↦ some s.tier
    ]

unfoldable pub find_override : ℕ → PlanModule → List CompanyModuleOverride → Option Bool
unfolding module_code
find_override root m [] = none
find_override root m (o ∷ os) =
    if o.company_id == root && module_code o.plan_module == module_code m
    then some o.enabled
    else find_override root m os

unfoldable pub module_override : Session → ℕ → PlanModule → Db → Option Bool
unfolding find_override
module_override session company_id m db =
    find_override (session.get_root_company_id company_id) m db.module_overrides

unfoldable pub module_allowed : Session → ℕ → PlanModule → Db → Bool
unfolding module_override root_tier tier_rank module_min_tier
module_allowed session company_id m db = elim (module_override session company_id m db) [
  | some enabled ↦ enabled
  | none ↦ elim (root_tier session company_id db) [
    | none ↦ true
    | some tier ↦ leb (tier_rank (module_min_tier m)) (tier_rank tier)
  ]
]

unfoldable pub tier_allows : Session → ℕ → PlanModule → Db → Bool
unfolding module_allowed
tier_allows session company_id m db = module_allowed session company_id m db

unfoldable pub require_module : CurrentUser → PlanModule → Exec (Unit {0})
unfolding module_allowed
require_module current m db =
    require (module_allowed current.session current.company_id m db)
      (forbidden "This feature requires a higher plan") db

-- The dependencies of a route that writes, in the order of its parameters.
unfoldable pub authorize_write : CurrentUser → List Role → Method → Exec (Unit {0})
unfolding require_role block_if_read_only
authorize_write current roles method = do
  require_role current roles
  block_if_read_only current method

unfoldable pub authorize_module : CurrentUser → List Role → Method → PlanModule → Exec (Unit {0})
unfolding authorize_write require_module
authorize_module current roles method m = do
  authorize_write current roles method
  require_module current m
