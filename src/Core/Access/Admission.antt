-- ===== src/Core/Access/Admission.antt =====
-- What the three checks of a route over a gated module admit: backend/app/core/deps.py and
-- tier_gating.py.
use new_builders_stream.Prelude.{
  ℕ, String, ◌≤◌, ◌≡◌, ◌⊎◌, refl, sym, ◌∙◌, Bool, true, false, not, ◌&&◌, ◌||◌, leb, some, none,
  List, [], ◌∷◌, Option, any, arith, Bool-cases, Option-cases, inl, inr, if◌then◌else◌,
}
use new_builders_stream.Models.{Db, CurrentUser, Role, PlanModule, trialing, active}
use new_builders_stream.Core.Exec.{ok, err, require, forbidden}
use new_builders_stream.Core.Access.{
  Method, is_safe, in_good_standing, is_read_only, same_role, require_role, block_if_read_only,
  require_module, authorize_write, authorize_module, tier_rank, module_min_tier, module_allowed,
  find_override,
}
use new_builders_stream.Core.Access.Gating.{module_allowed-override}
use new_builders_stream.Core.Access.Conditions.{
  OneOf, RootPlan, Admitted, any_role-OneOf, OneOf-any_role, is_safe-OneOf, OneOf-is_safe,
  in_good_standing-OneOf, OneOf-in_good_standing, plan-RootPlan, RootPlan-plan, not_read_only-eq,
  by_tier-eq,
}

-- What the three checks compute.
admitted : CurrentUser → List Role → Method → PlanModule → Db → Bool
unfolding is_safe is_read_only module_allowed same_role
admitted current roles method m db =
    any (same_role current.role) roles
    && ((is_safe method || not (is_read_only current db))
        && module_allowed current.session current.company_id m db)

authorize_module-eq :
    (current : CurrentUser) (roles : List Role) (method : Method) (m : PlanModule) (db : Db)
    → (detail : String) × (authorize_module current roles method m db ≡ (
        if admitted current roles method m db then (ok tt, db) else (err (forbidden detail), db)))
unfolding authorize_module authorize_write require_role block_if_read_only require_module admitted
authorize_module-eq current roles method m db =
    elim (Bool-cases (any (same_role current.role) roles)) [
      | inr a ↦ ("Requires one of roles", rw a)
      | inl a ↦ elim (Bool-cases (is_safe method)) [
        | inl b ↦ ("This feature requires a higher plan", rw (a, b) (gate a))
        | inr b ↦ elim (Bool-cases (is_read_only current db)) [
          | inl c ↦
              ("Your subscription requires attention before you can make changes", rw (a, b, c))
          | inr c ↦ ("This feature requires a higher plan", rw (a, b, c) (gate a))
        ]
      ]
    ]
  where
    gate :
        {b : Bool}
        → b ≡ true
        → require
            (module_allowed current.session current.company_id m db)
            (forbidden "This feature requires a higher plan")
            db
          ≡ (if module_allowed current.session current.company_id m db
              then (ok tt, db)
              else (err (forbidden "This feature requires a higher plan"), db))
    gate _ = elim (Bool-cases (module_allowed current.session current.company_id m db)) [
      | inl e ↦ rw e
      | inr e ↦ rw e
    ]

Standing : CurrentUser → Db → Type 0
Standing current db = RootPlan current db (λ s. OneOf s.status (trialing ∷ active ∷ []))

is_read_only-Standing :
    (current : CurrentUser) (db : Db) → not (is_read_only current db) ≡ true → Standing current db
unfolding Standing
is_read_only-Standing current db h =
    plan-RootPlan current db _ (λ s. in_good_standing s.status)
      (λ s. in_good_standing-OneOf s.status) (sym (not_read_only-eq current db) ∙ h)

Standing-is_read_only :
    (current : CurrentUser) (db : Db) → Standing current db → not (is_read_only current db) ≡ true
unfolding Standing
Standing-is_read_only current db h =
    not_read_only-eq current db
    ∙ RootPlan-plan current db _ (λ s. in_good_standing s.status)
        (λ s. OneOf-in_good_standing s.status) h

module _ (current : CurrentUser) (m : PlanModule) (db : Db) where
  override : Option Bool
  override =
      find_override (current.session.get_root_company_id current.company_id) m db.module_overrides

  Entitled : Type 0
  Entitled =
      (override ≡ some true)
      ⊎ ((override ≡ none)
          × RootPlan current db (λ s. tier_rank (module_min_tier m) ≤ tier_rank s.tier))

  leb→≤ : (a b : ℕ) → leb a b ≡ true → a ≤ b
  leb→≤ a b h = ground arith

  ≤→leb : (a b : ℕ) → a ≤ b → leb a b ≡ true
  ≤→leb a b h = ground arith

  allowed-Entitled : module_allowed current.session current.company_id m db ≡ true → Entitled
  unfolding Entitled override
  allowed-Entitled h = elim (Option-cases override) [
    | inl o ↦ inr (
      o,
      plan-RootPlan current db _ (λ s. leb (tier_rank (module_min_tier m)) (tier_rank s.tier))
          (λ s. leb→≤ (tier_rank (module_min_tier m)) (tier_rank s.tier))
          (sym (by_tier-eq current m db o) ∙ h),
    )
    | inr (enabled, o) ↦
        let granted =
          sym (module_allowed-override current.session current.company_id m enabled db o) ∙ h in
        inl (o ∙ (rw granted refl))
  ]

  Entitled-allowed : Entitled → module_allowed current.session current.company_id m db ≡ true
  unfolding Entitled override
  Entitled-allowed (inl o) = module_allowed-override current.session current.company_id m true db o
  Entitled-allowed (inr (o, plan)) =
      by_tier-eq current m db o
      ∙ RootPlan-plan current db _ (λ s. leb (tier_rank (module_min_tier m)) (tier_rank s.tier))
          (λ s. ≤→leb (tier_rank (module_min_tier m)) (tier_rank s.tier)) plan

module _ (current : CurrentUser) (roles : List Role) (method : Method) (m : PlanModule)
    (db : Db) where
  admitted-Admitted : admitted current roles method m db ≡ true → Admitted current roles method m db
  unfolding admitted Entitled override Standing
  admitted-Admitted h =
      let (a, b, c) =
        three (any (same_role current.role) roles) (is_safe method) (not (is_read_only current db))
          (module_allowed current.session current.company_id m db) h in
      record {
        has_role = any_role-OneOf current.role roles a;
        may_write = elim b [
          | inl safe ↦ inl (is_safe-OneOf method safe)
          | inr good ↦ inr (is_read_only-Standing current db good)
        ];
        has_module = allowed-Entitled current m db c;
      }
    where
      three :
          (a s g c : Bool)
          → (a && ((s || g) && c)) ≡ true
          → (a ≡ true) × ((s ≡ true) ⊎ (g ≡ true)) × (c ≡ true)
      three true true g true h = (refl, inl refl, refl)
      three true false true true h = (refl, inr refl, refl)
      three _ _ _ _ h = absurd (cc)

  Admitted-admitted : Admitted current roles method m db → admitted current roles method m db ≡ true
  unfolding admitted Entitled override Standing
  Admitted-admitted h =
      let a = OneOf-any_role current.role roles h.has_role in
      let c = Entitled-allowed current m db h.has_module in
      elim h.may_write [
        | inl safe ↦ rw (a, OneOf-is_safe method safe, c) refl
        | inr good ↦ elim (Bool-cases (is_safe method)) [
          | inl safe ↦ rw (a, safe, c) refl
          | inr unsafe ↦ rw (a, unsafe, Standing-is_read_only current db good, c) refl
        ]
      ]

  -- The three checks of a route over a gated module either pass, and then the caller has one of the
  -- roles, the method is safe or the root company's subscription is missing, trialing or active, and
  -- the root company's override grants the module or, without one, its subscription is missing or of a
  -- high enough tier; or they forbid the route, and then one of these does not hold. They never write.
  pub authorize_module_lem :
      ((authorize_module current roles method m db ≡ (ok tt, db))
        × Admitted current roles method m db)
      ⊎ ((detail : String) × (authorize_module current roles method m db
            ≡ (err (forbidden detail), db))
          × ¬ Admitted current roles method m db)
  authorize_module_lem =
      let (detail, checks) = authorize_module-eq current roles method m db in
      elim (Bool-cases (admitted current roles method m db)) [
        | inl e ↦ inl (checks ∙ (rw e refl), admitted-Admitted e)
        | inr e ↦ inr (
          detail,
          checks ∙ (rw e refl),
          λ h.
              let also : admitted current roles method m db ≡ true = Admitted-admitted h in
              absurd (cc),
        )
      ]
