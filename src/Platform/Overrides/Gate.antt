-- ===== src/Platform/Overrides/Gate.antt =====
-- What an override does to the gate of the plan (backend/app/core/tier_gating.py).
use mathlib.Core.Path.{subst}
use new_builders_stream.Prelude.{
  ℕ, ◌≡◌, refl, sym, ap, ◌∙◌, ◌==◌, ◌&&◌, is_none, leb, Bool, true, false, Bool-cases, inl, inr,
  if◌then◌else◌, Option, none, some, List, [], ◌∷◌, arith,
}
use new_builders_stream.Prelude.Table.{find, find_key, replace}
use new_builders_stream.Models.{Db, Session, Tier, PlanModule, CompanyModuleOverride, AuditLog}
use new_builders_stream.Core.Exec.{Result, ok, >>=-eq-ok}
use new_builders_stream.Core.Exec.Reads.{
  Reads, reads_rules, after_read-eq-ok, require-ok, or_raise-ok,
}
use new_builders_stream.Core.Access.{
  tier_rank, module_min_tier, module_code, root_tier, find_override, module_override,
  module_allowed, tier_allows,
}
use new_builders_stream.Core.Audit.{write_audit_log}
use new_builders_stream.Platform.Overrides.{
  PlatformActor, Company, ModuleOverrideRequest, ModuleEntitlement, override_row, entitlement_by,
  entitlement, require_root, save_override, set_module_override, entitlements,
}

enabled_of : Option CompanyModuleOverride → Option Bool
enabled_of none = none
enabled_of (some o) = some o.enabled

find_override-row :
    (root : ℕ) (m : PlanModule) (rows : List CompanyModuleOverride)
    → find_override root m rows ≡ enabled_of (override_row root m rows)
unfolding find_override override_row enabled_of
find_override-row root m [] = refl
find_override-row root m (o ∷ rows) = ground (arith, find_override-row root m rows)

-- The decision of the gate, of an override and a tier.
abbrev by_tier : PlanModule → Option Tier → Bool
by_tier m none = true
by_tier m (some tier) = leb (tier_rank (module_min_tier m)) (tier_rank tier)

abbrev decision : PlanModule → Option Tier → Option Bool → Bool
decision m tier (some enabled) = enabled
decision m tier none = by_tier m tier

allows-decision :
    (session : Session) (c : ℕ) (m : PlanModule) (db : Db)
    → tier_allows session c m db
      ≡ decision m
          (root_tier session c db)
          (find_override (session.get_root_company_id c) m db.module_overrides)
unfolding tier_allows module_allowed module_override
allows-decision session c m db =
    go (find_override (session.get_root_company_id c) m db.module_overrides)
      (root_tier session c db)
  where
    go :
        (o : Option Bool) (tier : Option Tier)
        → (elim o [
          | some enabled ↦ enabled
          | none ↦ elim tier [
            | none ↦ true
            | some t ↦ leb (tier_rank (module_min_tier m)) (tier_rank t)
          ]
        ])
          ≡ decision m tier o
    go none none = refl
    go none (some t) = refl
    go (some enabled) tier = refl

effective-decision :
    (root : ℕ) (tier : Option Tier) (rows : List CompanyModuleOverride) (m : PlanModule)
    → (entitlement root tier rows m).effective ≡ decision m tier (find_override root m rows)
unfolding entitlement entitlement_by enabled_of
effective-decision root tier rows m =
    go (override_row root m rows) tier ∙ ap (decision m tier) (sym (find_override-row root m rows))
  where
    go :
        (row : Option CompanyModuleOverride) (tier : Option Tier)
        → (entitlement_by m tier row).effective ≡ decision m tier (enabled_of row)
    go none none = refl
    go none (some t) = refl
    go (some o) tier = refl

-- For every company and module, what the operator sees as effective is what the gate of the plan
-- decides.
pub entitlement_lem :
    (session : Session) (c : ℕ) (m : PlanModule) (db : Db)
    → (entitlement
        (session.get_root_company_id c)
        (root_tier session c db)
        db.module_overrides
        m).effective
      ≡ tier_allows session c m db
entitlement_lem session c m db =
    effective-decision (session.get_root_company_id c) (root_tier session c db) db.module_overrides
      m
    ∙ sym (allows-decision session c m db)

abbrev is_for : ℕ → PlanModule → ℕ → PlanModule → Bool
is_for root m root' m' = root == root' && module_code m == module_code m'

some_injective : {A : Type 0} {a b : A} → some a ≡ some b → a ≡ b
some_injective q = cc

picked :
    {A : Type 0} (b : Bool) (x o : A) (r : Option A)
    → b ≡ true
    → (if b then some x else r) ≡ some o
    → x ≡ o
picked true x o r h e = some_injective e
picked false x o r h e = absurd (cc)

passed :
    {A : Type 0} (b : Bool) (x o : A) (r : Option A)
    → b ≡ false
    → (if b then some x else r) ≡ some o
    → r ≡ some o
passed false x o r h e = e
passed true x o r h e = absurd (cc)

row_matches :
    (root : ℕ) (m : PlanModule) (o : CompanyModuleOverride) (rows : List CompanyModuleOverride)
    → override_row root m rows ≡ some o
    → is_for o.company_id o.plan_module root m ≡ true
unfolding override_row
row_matches root m o [] e = absurd (cc)
row_matches root m o (x ∷ rows) e = elim (Bool-cases (is_for x.company_id x.plan_module root m)) [
  | inl h ↦
      subst (λ (y : CompanyModuleOverride). is_for y.company_id y.plan_module root m ≡ true)
        (picked _ x o _ h e) h
  | inr h ↦ row_matches root m o rows (passed _ x o _ h e)
]

-- The rows after one of them was changed: the first with its identifier is the row itself.
find-changed :
    (root : ℕ) (m : PlanModule) (o changed : CompanyModuleOverride) (root' : ℕ) (m' : PlanModule)
    (rows : List CompanyModuleOverride)
    → override_row root m rows ≡ some o
    → find (λ x. x.id) o.id rows ≡ some o
    → changed.id ≡ o.id
    → changed.company_id ≡ o.company_id
    → changed.plan_module ≡ o.plan_module
    → find_override root' m' (replace (λ x. x.id) changed rows)
      ≡ (if is_for root m root' m' then some changed.enabled else find_override root' m' rows)
unfolding override_row find find_override replace
find-changed root m o changed root' m' [] e here i c p = absurd (cc)
find-changed root m o changed root' m' (x ∷ rows) e here i c p = elim (Bool-cases (x.id == o.id)) [
  | inl hit ↦
      let same : x ≡ o = picked _ x o _ hit here in
      rw (i, hit)
        (ground (
          arith,
          ap (λ (y : CompanyModuleOverride). y.company_id) same,
          ap (λ (y : CompanyModuleOverride). module_code y.plan_module) same,
          ap module_code p,
          row_matches root m o (x ∷ rows) e,
        ))
  | inr miss ↦ elim (Bool-cases (is_for x.company_id x.plan_module root m)) [
    | inl matches ↦
        let same : x ≡ o = picked _ x o _ matches e in
        absurd (ground (arith, ap (λ (y : CompanyModuleOverride). y.id) same))
    | inr differs ↦
        rw (i, miss)
          (ground (
            arith,
            find-changed root m o changed root' m' rows (passed _ x o _ differs e)
                (passed _ x o _ miss here) i c p,
            row_matches root m o rows (passed _ x o _ differs e),
          ))
  ]
]

allows-audit :
    (session : Session) (c : ℕ) (m : PlanModule) (rows : List AuditLog) (db : Db)
    → tier_allows session c m (record db { audit_log = rows }) ≡ tier_allows session c m db
unfolding tier_allows module_allowed module_override root_tier
allows-audit session c m rows db = refl

choose : Bool → Bool → Bool → Bool
choose b enabled before = if b then enabled else before

picks :
    (m : PlanModule) (tier : Option Tier) (b enabled : Bool) (o : Option Bool)
    → decision m tier (if b then some enabled else o) ≡ choose b enabled (decision m tier o)
unfolding choose
picks m tier true enabled o = refl
picks m tier false enabled o = refl

ok_injective :
    {A : Type 0} {a b : A} {c d : Db} → ◌≡◌ {A = Result A × Db} (ok a, c) (ok b, d) → a ≡ b
ok_injective q = cc

module _ (companies : List Company) where
  require_root-Reads : (i : ℕ) → Reads (require_root companies i)
  unfolding require_root
  require_root-Reads i = search reads_rules

  require_root-ok :
      (i : ℕ) (company : Company) (db : Db)
      → require_root companies i db ≡ (ok company, db)
      → (find (λ x. x.id) i companies ≡ some company) × (is_none company.parent_id ≡ true)
  unfolding require_root
  require_root-ok i company db h =
      let (found, here, h1) = or_raise-ok _ (find (λ x. x.id) i companies) _ db h in
      let (root, q) = require-ok (is_none found.parent_id) _ _ db h1 in
      subst
        (λ (x : Company). (find (λ y. y.id) i companies ≡ some x) × (is_none x.parent_id ≡ true))
        (ok_injective q) (here, root)

  -- A module is gated, after the override was saved, as the override says, for the companies under
  -- the root, and as before for other companies and modules.
  gated_after :
      (actor : PlatformActor) (root : ℕ) (m : PlanModule) (payload : ModuleOverrideRequest)
      (existing : Option CompanyModuleOverride) (session : Session) (c : ℕ) (m' : PlanModule)
      (db : Db)
      → override_row root m db.module_overrides ≡ existing
      → ((o : CompanyModuleOverride)
          → override_row root m db.module_overrides ≡ some o
          → find (λ x. x.id) o.id db.module_overrides ≡ some o)
      → tier_allows session c m' (save_override companies actor root m payload existing db).1 ≡ (
          if is_for root m (session.get_root_company_id c) m'
          then payload.enabled
          else tier_allows session c m' db)
  unfolding save_override root_tier find_override choose
  gated_after actor root m payload none session c m' db e keys =
      allows-decision session c m' _
      ∙ picks m' (root_tier session c db) (is_for root m (session.get_root_company_id c) m')
          payload.enabled (find_override (session.get_root_company_id c) m' db.module_overrides)
      ∙ ap (choose (is_for root m (session.get_root_company_id c) m') payload.enabled)
          (sym (allows-decision session c m' db))
  gated_after actor root m payload (some o) session c m' db e keys =
      allows-decision session c m' _
      ∙ ap (decision m' (root_tier session c db)) (
          find-changed root m o
            (record o { enabled = payload.enabled; note = payload.note; set_by = actor.user_id })
            (session.get_root_company_id c) m' db.module_overrides e (keys o e) refl refl refl)
      ∙ picks m' (root_tier session c db) (is_for root m (session.get_root_company_id c) m')
          payload.enabled (find_override (session.get_root_company_id c) m' db.module_overrides)
      ∙ ap (choose (is_for root m (session.get_root_company_id c) m') payload.enabled)
          (sym (allows-decision session c m' db))

  -- When set_module_override returns, over a table in which the identifier of the module's row finds
  -- that row, the company is a root; the gate of the plan then lets every company under that root use
  -- the module exactly if the override enables it, and is for every other company or module what it was.
  pub set_module_override_lem :
      (actor : PlatformActor) (i : ℕ) (m : PlanModule) (payload : ModuleOverrideRequest)
      (reply : List ModuleEntitlement) (session : Session) (c : ℕ) (m' : PlanModule) (db db' : Db)
      → ((o : CompanyModuleOverride)
          → override_row i m db.module_overrides ≡ some o
          → find (λ x. x.id) o.id db.module_overrides ≡ some o)
      → set_module_override companies actor i m payload db ≡ (ok reply, db')
      → ((company : Company) × (find (λ x. x.id) i companies ≡ some company)
          × (is_none company.parent_id ≡ true))
        × (tier_allows session c m' db' ≡ (
            if is_for i m (session.get_root_company_id c) m'
            then payload.enabled
            else tier_allows session c m' db))
  unfolding set_module_override write_audit_log entitlements
  set_module_override_lem actor i m payload reply session c m' db db' keys h =
      let (company, found, h1) =
        after_read-eq-ok (require_root companies i) _ db (require_root-Reads i) h in
      let (here, root) = require_root-ok i company db found in
      let same : company.id ≡ i = find_key (λ x. x.id) i company companies here in
      let (saved, mid, ran, q) =
        >>=-eq-ok
          (save_override companies actor company.id m payload
            (override_row company.id m db.module_overrides))
          _ db h1 in
      (
        (company, here, root),
        ap (tier_allows session c m')
              (sym (ap (λ (r : Result (List ModuleEntitlement) × Db). r.1) q))
            ∙ allows-audit session c m' _ mid
            ∙ ap (tier_allows session c m')
                (sym (ap (λ (r : Result CompanyModuleOverride × Db). r.1) ran))
            ∙ gated_after actor company.id m payload (override_row company.id m db.module_overrides)
                session c m' db refl
                (subst
                  (λ (k : ℕ).
                    (o : CompanyModuleOverride)
                    → override_row k m db.module_overrides ≡ some o
                    → find (λ x. x.id) o.id db.module_overrides ≡ some o)
                  (sym same) keys)
            ∙ ap
                (λ (k : ℕ).
                  if is_for k m (session.get_root_company_id c) m'
                  then payload.enabled
                  else tier_allows session c m' db)
                same,
      )
