-- ===== src/Core/Access/Gating.antt =====
-- What the plan of the root company gates.
use new_builders_stream.Prelude.{
  ℕ, ◌≤◌, ◌≡◌, refl, sym, ◌∙◌, Bool, true, ◌==◌, leb, some, none, arith, ==_iff, Option-cases, inl,
  inr,
}
use new_builders_stream.Prelude.Table.{find, find_key, update_where, find-update_where}
use new_builders_stream.Models.{Db, Session, Tier, PlanModule, Subscription}
use new_builders_stream.Core.Access.{
  tier_rank, module_min_tier, module_override, root_tier, module_allowed, find_override,
}

-- The database after a change of the tier of a root company.
pub with_tier : ℕ → Tier → Db → Db
unfolding update_where
with_tier root tier db = record db {
  subscriptions =
      update_where (λ s. s.company_id == root) (λ s. record s { tier = tier }) db.subscriptions;
}

-- Without an override the tier of the root company's subscription decides.
pub module_allowed-tier :
    (session : Session) (company_id : ℕ) (m : PlanModule) (sub : Subscription) (db : Db)
    → find_override (session.get_root_company_id company_id) m db.module_overrides ≡ none
    → find (λ s. s.company_id) (session.get_root_company_id company_id) db.subscriptions ≡ some sub
    → module_allowed session company_id m db
      ≡ leb (tier_rank (module_min_tier m)) (tier_rank sub.tier)
unfolding module_allowed module_override root_tier
module_allowed-tier session company_id m sub db o found =
    rw (o, found, module_allowed, module_override, root_tier)

pub module_allowed-override :
    (session : Session) (company_id : ℕ) (m : PlanModule) (enabled : Bool) (db : Db)
    → find_override (session.get_root_company_id company_id) m db.module_overrides ≡ some enabled
    → module_allowed session company_id m db ≡ enabled
unfolding module_allowed module_override
module_allowed-override session company_id m enabled db o = rw (o, module_allowed, module_override)

pub root_tier-none :
    (session : Session) (company_id : ℕ) (db : Db)
    → find (λ s. s.company_id) (session.get_root_company_id company_id) db.subscriptions ≡ none
    → root_tier session company_id db ≡ none
unfolding root_tier
root_tier-none session company_id db f = rw (f, root_tier)

root_tier-some :
    (session : Session) (company_id : ℕ) (sub : Subscription) (db : Db)
    → find (λ s. s.company_id) (session.get_root_company_id company_id) db.subscriptions ≡ some sub
    → root_tier session company_id db ≡ some sub.tier
unfolding root_tier
root_tier-some session company_id sub db f = rw (f, root_tier)

-- Whatever module the plan of a company allowed, it allows after the root company goes to the same
-- or a higher tier.
pub upgrade_keeps_module :
    (session : Session) (company_id : ℕ) (m : PlanModule) (old new_tier : Tier) (db : Db)
    → root_tier session company_id db ≡ some old
    → tier_rank old ≤ tier_rank new_tier
    → module_allowed session company_id m db ≡ true
    → module_allowed session company_id m
        (with_tier (session.get_root_company_id company_id) new_tier db)
      ≡ true
unfolding with_tier
upgrade_keeps_module session company_id m old new_tier db had higher allowed =
    let root = session.get_root_company_id company_id in
    let db' = with_tier root new_tier db in
    elim (Option-cases (find_override root m db.module_overrides)) [
      | inr (enabled, o) ↦
          module_allowed-override session company_id m enabled db' o
          ∙ sym (module_allowed-override session company_id m enabled db o)
          ∙ allowed
      | inl o ↦ elim (Option-cases (find (λ s. s.company_id) root db.subscriptions)) [
        | inl missing ↦ absurd (cc (root_tier-none session company_id db missing))
        | inr (sub, found) ↦
            let own : (sub.company_id == root) ≡ true =
              (==_iff sub.company_id root).1
                (find_key (λ s. s.company_id) root sub db.subscriptions found) in
            let change =
              find-update_where (λ s. s.company_id) (λ s. s.company_id == root)
                (λ s. record s { tier = new_tier }) root db.subscriptions (λ s. refl) in
            let tier : sub.tier ≡ old = cc (root_tier-some session company_id sub db found) in
            let before = sym (module_allowed-tier session company_id m sub db o found) ∙ allowed in
            module_allowed-tier session company_id m (record sub { tier = new_tier }) db' o
              (change ∙ (rw (found, own) refl))
            ∙ leb_up (tier_rank (module_min_tier m)) (tier_rank old) (tier_rank new_tier) higher
                (rw tier at before)
      ]
    ]
  where
    leb_up : (a b c : ℕ) → b ≤ c → leb a b ≡ true → leb a c ≡ true
    leb_up a b c h k = ground arith
