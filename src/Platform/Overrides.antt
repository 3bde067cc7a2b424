-- ===== src/Platform/Overrides.antt =====
-- The plan modules of a tenant in backend/app/routers/platform_tenants.py: the entitlements that the
-- operator sees, and the overrides that the operator sets and clears. The companies are an argument;
-- the operator's session shows every row. Of the metadata of an audit entry the Booleans are left out.
pub mod Gate
use new_builders_stream.Prelude.{
  ℕ, ◌==◌, ◌&&◌, not, leb, is_none, Bool, true, false, if◌then◌else◌, Option, none, some, String,
  List, [], ◌∷◌,
}
use new_builders_stream.Prelude.Table.{find, replace, select}
use new_builders_stream.Models.{
  Db, Session, Tier, PlanModule, estimation, compliance, accounting, integrations, child_branches,
  CompanyModuleOverride, text,
}
use new_builders_stream.Core.Exec.{
  Exec, bad_request, not_found, pure, gets, modify, require, fetch, or_raise, uuid4, ◌>>=◌, ◌>>◌,
}
use new_builders_stream.Core.Access.{tier_rank, module_min_tier, module_code, root_tier}
use new_builders_stream.Core.Audit.{write_audit_log}

pub record PlatformActor : Type 0 where
  pub user_id : ℕ
  pub email : String
  pub session : Session

pub record Company : Type 0 where
  pub id : ℕ
  pub parent_id : Option ℕ

pub record ModuleOverrideRequest : Type 0 where
  pub enabled : Bool
  pub note : Option String

pub record ModuleEntitlement : Type 0 where
  pub plan_module : PlanModule
  pub allowed_by_tier : Bool
  pub override_enabled : Option Bool
  pub effective : Bool
  pub note : Option String

-- The keys of MODULE_MIN_TIER.
abbrev pub plan_modules : List PlanModule
plan_modules = estimation ∷ compliance ∷ accounting ∷ integrations ∷ child_branches ∷ []

-- The row of a company and a module, which are unique together.
unfoldable pub override_row :
    ℕ → PlanModule → List CompanyModuleOverride → Option CompanyModuleOverride
override_row root m [] = none
override_row root m (o ∷ os) =
    if o.company_id == root && module_code o.plan_module == module_code m
    then some o
    else override_row root m os

-- One entry of `_entitlements`, for a tier that may be missing, by the row of the module.
unfoldable pub entitlement_by :
    PlanModule → Option Tier → Option CompanyModuleOverride → ModuleEntitlement
entitlement_by m tier row =
    let allowed_by_tier : Bool = elim tier [
      | none ↦ true
      | some t ↦ leb (tier_rank (module_min_tier m)) (tier_rank t)
    ] in
    elim row [
      | none ↦ record {
        plan_module = m;
        allowed_by_tier = allowed_by_tier;
        override_enabled = none;
        effective = allowed_by_tier;
        note = none;
      }
      | some o ↦ record {
        plan_module = m;
        allowed_by_tier = allowed_by_tier;
        override_enabled = some o.enabled;
        effective = o.enabled;
        note = o.note;
      }
    ]

unfoldable pub entitlement :
    ℕ → Option Tier → List CompanyModuleOverride → PlanModule → ModuleEntitlement
entitlement root tier overrides m = entitlement_by m tier (override_row root m overrides)

unfoldable pub entitlements_of :
    ℕ → Option Tier → List CompanyModuleOverride → List PlanModule → List ModuleEntitlement
entitlements_of root tier overrides [] = []
entitlements_of root tier overrides (m ∷ ms) =
    entitlement root tier overrides m ∷ entitlements_of root tier overrides ms

-- `_entitlements`.
unfoldable pub entitlements : Session → ℕ → Exec (List ModuleEntitlement)
entitlements session company_id = gets λ db.
    entitlements_of (session.get_root_company_id company_id) (root_tier session company_id db)
      db.module_overrides plan_modules

module _ (companies : List Company) where
  -- `_require_root`.
  unfoldable pub require_root : ℕ → Exec Company
  require_root company_id = do
    company ← fetch (not_found "No such company") (λ db. find (λ c. c.id) company_id companies)
    require (is_none company.parent_id) (bad_request "Entitlements are held by the root company")
    pure company

  -- The row that is there is changed, or a new one is added.
  unfoldable pub save_override :
      PlatformActor
      → ℕ
      → PlanModule
      → ModuleOverrideRequest
      → Option CompanyModuleOverride
      → Exec CompanyModuleOverride
  save_override actor root m payload (some o) = do
    let changed : CompanyModuleOverride = record o {
      enabled = payload.enabled;
      note = payload.note;
      set_by = actor.user_id;
    }
    modify λ db. record db { module_overrides = replace (λ x. x.id) changed db.module_overrides }
    pure changed
  save_override actor root m payload none = do
    id ← uuid4
    let added : CompanyModuleOverride = record {
      id = id;
      company_id = root;
      plan_module = m;
      enabled = payload.enabled;
      note = payload.note;
      set_by = actor.user_id;
    }
    modify λ db. record db { module_overrides = added ∷ db.module_overrides }
    pure added

  unfoldable pub set_module_override :
      PlatformActor → ℕ → PlanModule → ModuleOverrideRequest → Exec (List ModuleEntitlement)
  set_module_override actor company_id m payload = do
    company ← require_root company_id
    existing ← gets λ db. override_row company.id m db.module_overrides
    saved ← save_override actor company.id m payload existing
    write_audit_log company.id (some actor.user_id) "platform.module_override_set"
        "company_module_override" saved.id (("by", text actor.email) ∷ [])
    entitlements actor.session company.id

  unfoldable pub clear_module_override :
      PlatformActor → ℕ → PlanModule → Exec (List ModuleEntitlement)
  clear_module_override actor company_id m = do
    company ← require_root company_id
    existing ← gets λ db. override_row company.id m db.module_overrides
    o ← or_raise (not_found "No override set for this module on this company") existing
    modify
        λ db. record db { module_overrides = select (λ x. not (x.id == o.id)) db.module_overrides }
    write_audit_log company.id (some actor.user_id) "platform.module_override_cleared"
        "company_module_override" o.id (("by", text actor.email) ∷ [])
    entitlements actor.session company.id
