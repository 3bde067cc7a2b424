-- ===== src/Core/Access/Conditions.antt =====
-- When a route over a gated module admits a request, in terms of the rows that
-- backend/app/core/deps.py and tier_gating.py read.
use new_builders_stream.Prelude.{
  ◌≤◌, ◌≡◌, ◌⊎◌, refl, sym, Bool, true, false, not, leb, some, none, List, [], ◌∷◌, Option, any,
  Bool-cases, Option-cases, inl, inr,
}
use new_builders_stream.Prelude.Table.{find}
use new_builders_stream.Models.{
  Db, CurrentUser, Role, admin, project_manager, field_crew, accountant, client, PlanModule,
  Subscription, SubscriptionStatus, trialing, active,
}
use new_builders_stream.Core.Access.{
  Method, get, head, options, is_safe, in_good_standing, is_read_only, same_role, tier_rank,
  module_min_tier, module_override, root_tier, module_allowed, find_override,
}

-- One of a list.
unfoldable pub OneOf : {A : Type 0} → A → List A → Type 0
OneOf x [] = ⊥
OneOf x (y ∷ ys) = (x ≡ y) ⊎ OneOf x ys

-- The root company has no subscription, or one of which `p` holds.
module _ (current : CurrentUser) (db : Db) (p : Subscription → Type 0) where
  abbrev pub RootPlan : Type 0
  RootPlan =
      let root = current.session.get_root_company_id current.company_id in
      (find (λ s. s.company_id) root db.subscriptions ≡ none)
      ⊎ ((s : Subscription) × (find (λ s. s.company_id) root db.subscriptions ≡ some s) × p s)

-- The caller has one of the roles; the method is safe, or the root company has no subscription or one
-- that is trialing or active; and the root company's override of the module grants it, or there is no
-- override and no subscription or one of a tier that ranks at least as high as the module's.
pub record Admitted (current : CurrentUser) (roles : List Role) (method : Method) (m : PlanModule)
    (db : Db) : Type 0 where
  pub has_role : OneOf current.role roles
  pub may_write :
      OneOf method (get ∷ head ∷ options ∷ [])
      ⊎ RootPlan current db (λ s. OneOf s.status (trialing ∷ active ∷ []))
  pub has_module :
      let root = current.session.get_root_company_id current.company_id in
      (find_override root m db.module_overrides ≡ some true)
      ⊎ ((find_override root m db.module_overrides ≡ none)
          × RootPlan current db (λ s. tier_rank (module_min_tier m) ≤ tier_rank s.tier))

same_role-eq : (a b : Role) → same_role a b ≡ true → a ≡ b
unfolding same_role
same_role-eq admin admin h = refl
same_role-eq project_manager project_manager h = refl
same_role-eq field_crew field_crew h = refl
same_role-eq accountant accountant h = refl
same_role-eq client client h = refl
same_role-eq _ _ h = absurd (cc)

same_role_self : (a : Role) → same_role a a ≡ true
unfolding same_role
same_role_self admin = refl
same_role_self project_manager = refl
same_role_self field_crew = refl
same_role_self accountant = refl
same_role_self client = refl

pub any_role-OneOf : (r : Role) (roles : List Role) → any (same_role r) roles ≡ true → OneOf r roles
unfolding OneOf
any_role-OneOf r [] h = absurd (cc)
any_role-OneOf r (x ∷ roles) h = elim (Bool-cases (same_role r x)) [
  | inl e ↦ inl (same_role-eq r x e)
  | inr e ↦ inr (any_role-OneOf r roles (rw e at h))
]

pub OneOf-any_role : (r : Role) (roles : List Role) → OneOf r roles → any (same_role r) roles ≡ true
unfolding OneOf
OneOf-any_role r [] h = absurd h
OneOf-any_role r (x ∷ roles) (inl e) = rw (sym e) (rw (same_role_self r) refl)
OneOf-any_role r (x ∷ roles) (inr o) = elim (Bool-cases (same_role r x)) [
  | inl e ↦ rw e refl
  | inr e ↦ rw e (OneOf-any_role r roles o)
]

pub is_safe-OneOf : (m : Method) → is_safe m ≡ true → OneOf m (get ∷ head ∷ options ∷ [])
unfolding is_safe OneOf
is_safe-OneOf get h = inl refl
is_safe-OneOf head h = inr (inl refl)
is_safe-OneOf options h = inr (inr (inl refl))
is_safe-OneOf _ h = absurd (cc)

pub OneOf-is_safe : (m : Method) → OneOf m (get ∷ head ∷ options ∷ []) → is_safe m ≡ true
unfolding is_safe OneOf
OneOf-is_safe m (inl e) = rw e refl
OneOf-is_safe m (inr (inl e)) = rw e refl
OneOf-is_safe m (inr (inr (inl e))) = rw e refl
OneOf-is_safe m (inr (inr (inr e))) = absurd e

pub in_good_standing-OneOf :
    (x : SubscriptionStatus) → in_good_standing x ≡ true → OneOf x (trialing ∷ active ∷ [])
unfolding in_good_standing OneOf
in_good_standing-OneOf trialing h = inl refl
in_good_standing-OneOf active h = inr (inl refl)
in_good_standing-OneOf _ h = absurd (cc)

pub OneOf-in_good_standing :
    (x : SubscriptionStatus) → OneOf x (trialing ∷ active ∷ []) → in_good_standing x ≡ true
unfolding in_good_standing OneOf
OneOf-in_good_standing x (inl e) = rw e refl
OneOf-in_good_standing x (inr (inl e)) = rw e refl
OneOf-in_good_standing x (inr (inr e)) = absurd e

-- No subscription, or one of which `p` holds, as a test of the row.
pub plan-RootPlan :
    (current : CurrentUser) (db : Db) (p : Subscription → Type 0) (test : Subscription → Bool)
    → ((s : Subscription) → test s ≡ true → p s)
    → (elim (find
        (λ s. s.company_id)
        (current.session.get_root_company_id current.company_id)
        db.subscriptions) [ none ↦ true | some s ↦ test s ])
      ≡ true
    → RootPlan current db p
plan-RootPlan current db p test holds = go (
    find (λ s. s.company_id) (current.session.get_root_company_id current.company_id)
      db.subscriptions)
  where
    go :
        (o : Option Subscription)
        → (elim o [ none ↦ true | some s ↦ test s ]) ≡ true
        → (o ≡ none) ⊎ ((s : Subscription) × (o ≡ some s) × p s)
    go none h = inl refl
    go (some s) h = inr (s, refl, holds s h)

pub RootPlan-plan :
    (current : CurrentUser) (db : Db) (p : Subscription → Type 0) (test : Subscription → Bool)
    → ((s : Subscription) → p s → test s ≡ true)
    → RootPlan current db p
    → (elim (find
        (λ s. s.company_id)
        (current.session.get_root_company_id current.company_id)
        db.subscriptions) [ none ↦ true | some s ↦ test s ])
      ≡ true
RootPlan-plan current db p test holds (inl e) = rw e refl
RootPlan-plan current db p test holds (inr (s, e, h)) = rw e (holds s h)

pub not_read_only-eq :
    (current : CurrentUser) (db : Db)
    → not (is_read_only current db)
      ≡ (elim (find
          (λ s. s.company_id)
          (current.session.get_root_company_id current.company_id)
          db.subscriptions) [ none ↦ true | some s ↦ in_good_standing s.status ])
unfolding is_read_only
not_read_only-eq current db = go (
    find (λ s. s.company_id) (current.session.get_root_company_id current.company_id)
      db.subscriptions)
  where
    go :
        (o : Option Subscription)
        → not (elim o [ none ↦ false | some s ↦ not (in_good_standing s.status) ])
          ≡ (elim o [ none ↦ true | some s ↦ in_good_standing s.status ])
    go none = refl
    go (some s) = elim (Bool-cases (in_good_standing s.status)) [
      | inl e ↦ rw e refl
      | inr e ↦ rw e refl
    ]

-- The module gate without an override.
pub by_tier-eq :
    (current : CurrentUser) (m : PlanModule) (db : Db)
    → find_override (current.session.get_root_company_id current.company_id) m db.module_overrides
      ≡ none
    → module_allowed current.session current.company_id m db
      ≡ (elim (find
          (λ s. s.company_id)
          (current.session.get_root_company_id current.company_id)
          db.subscriptions) [
            | none ↦ true
            | some s ↦ leb (tier_rank (module_min_tier m)) (tier_rank s.tier)
          ])
unfolding module_allowed module_override root_tier
by_tier-eq current m db o =
    let root = current.session.get_root_company_id current.company_id in
    elim (Option-cases (find (λ s. s.company_id) root db.subscriptions)) [
      | inl missing ↦ rw (o, missing, module_allowed, module_override, root_tier) refl
      | inr (s, found) ↦ rw (o, found, module_allowed, module_override, root_tier) refl
    ]
