-- ===== src/Tests/PlatformRuns.antt =====
-- The operator switches the accounting module of a root company off.
use new_builders_stream.Prelude.{◌≡◌, refl, true, false, is_none, none, some, List, [], ◌∷◌}
use mathlib.Core.Path.{subst}
use new_builders_stream.Prelude.Table.{find}
use new_builders_stream.Models.{Db, accounting, compliance, CompanyModuleOverride}
use new_builders_stream.Core.Exec.{Result, ok, err}
use new_builders_stream.Core.Access.{tier_allows, root_tier, module_code}
use new_builders_stream.Core.Audit.{write_audit_log}
use new_builders_stream.Platform.Overrides.{
  PlatformActor, Company, ModuleOverrideRequest, ModuleEntitlement, override_row, entitlement,
  entitlements, require_root, save_override, set_module_override,
}
use new_builders_stream.Platform.Overrides.Gate.{entitlement_lem, set_module_override_lem}
use new_builders_stream.Tests.Sample.{session, start}

abbrev operator : PlatformActor
operator = record { user_id = 1; email = "ops@example.com"; session = session }

abbrev tenants : List Company
tenants = record { id = 1; parent_id = none } ∷ record { id = 2; parent_id = some 1 } ∷ []

abbrev granted : CompanyModuleOverride
granted = record {
  id = 60;
  company_id = 1;
  plan_module = accounting;
  enabled = true;
  note = none;
  set_by = 1;
}

abbrev before : Db
before = record start { module_overrides = granted ∷ [] }

abbrev off : ModuleOverrideRequest
off = record { enabled = false; note = some "unpaid" }

entitlement_lem_example :
    (entitlement 1 (root_tier session 2 start) [] compliance).effective
    ≡ tier_allows session 2 compliance start
entitlement_lem_example = entitlement_lem session 2 compliance start

own_row :
    (o : CompanyModuleOverride)
    → override_row 1 accounting before.module_overrides ≡ some o
    → find (λ x. x.id) o.id before.module_overrides ≡ some o
unfolding override_row find module_code
own_row o h =
    subst (λ (x : CompanyModuleOverride). find (λ y. y.id) x.id before.module_overrides ≡ some x)
      (the_row h) refl
  where
    the_row : {a b : CompanyModuleOverride} → some a ≡ some b → a ≡ b
    the_row q = cc

reply : Result (List ModuleEntitlement) → List ModuleEntitlement
reply (ok entries) = entries
reply (err e) = []

set_module_override_lem_example :
    let db' = (set_module_override tenants operator 1 accounting off before).1 in
    ((company : Company) × (find (λ x. x.id) 1 tenants ≡ some company)
      × (is_none company.parent_id ≡ true))
    × (tier_allows session 2 accounting db' ≡ false)
unfolding reply set_module_override require_root override_row save_override write_audit_log
    entitlements find module_code
set_module_override_lem_example =
    set_module_override_lem tenants operator 1 accounting off
      (reply (set_module_override tenants operator 1 accounting off before).0) session 2 accounting
      before (set_module_override tenants operator 1 accounting off before).1 own_row refl
