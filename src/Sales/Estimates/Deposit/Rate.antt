-- ===== src/Sales/Estimates/Deposit/Rate.antt =====
-- The handler of backend/app/services/estimate_approved_handler.py: when it drafts a deposit invoice,
-- and with which percentage of financial_settings.py.
use new_builders_stream.Prelude.{
  ℕ, ◌≡◌, ◌⊎◌, inl, inr, refl, sym, ap, ◌∙◌, Bool, true, false, ◌==◌, if◌then◌else◌, Option, some,
  none, List, [], ◌∷◌, Bool-cases, Option-cases, ==_iff,
}
use new_builders_stream.Prelude.Int.{ℤ}
use new_builders_stream.Prelude.Table.{find, select}
use new_builders_stream.Money.{Decimal, from_cents, times, quantize_cents}
use new_builders_stream.Models.{Db, Session, CompanyFinancialSettings, accounting}
use new_builders_stream.Core.Exec.{Result, ok}
use new_builders_stream.Core.Access.{tier_allows}
use new_builders_stream.Sales.Estimates.Deposit.{
  EstimateApproved, setting, or_default, default_deposit_percentage, resolve_financial_settings,
  deposit_of_total, estimate_was_approved,
}
use new_builders_stream.Sales.Estimates.Deposit.Exact.{
  the_deposit, deposit_audit, deposited, estimate_was_approved-eq,
}

-- A company whose settings row the session sees states a deposit percentage.
pub record States (session : Session) (company_id : ℕ) (rate : Decimal) (db : Db) : Type 0 where
  pub row : CompanyFinancialSettings
  pub found : find (λ r. r.company_id) company_id db.financial_settings ≡ some row
  pub seen : session.visible company_id ≡ true
  pub stated : row.deposit_percentage ≡ some rate

-- The deposit percentage of a company: what it states, else what its root company states, else 10%.
pub DepositRate : Session → ℕ → Decimal → Db → Type 0
DepositRate session c rate db =
    let root = session.get_root_company_id c in
    States session c rate db
    ⊎ (((x : Decimal) → ¬ States session c x db)
        × (States session root rate db
            ⊎ (((x : Decimal) → ¬ States session root x db) × (rate ≡ default_deposit_percentage))))

find-seen :
    (visible : ℕ → Bool) (c : ℕ) (rows : List CompanyFinancialSettings)
    → find (λ r. r.company_id) c (select (λ r. visible r.company_id) rows)
      ≡ (if visible c then find (λ r. r.company_id) c rows else none)
unfolding find select
find-seen visible c [] = elim (Bool-cases (visible c)) [ inl e ↦ rw e refl | inr e ↦ rw e refl ]
find-seen visible c (r ∷ rows) = elim (Bool-cases (r.company_id == c)) [
  | inl e ↦
      let same : r.company_id ≡ c = (==_iff r.company_id c).0 e in
      elim (Bool-cases (visible c)) [
        | inl v ↦
            let shown : visible r.company_id ≡ true = ap visible same ∙ v in rw (shown, v, e) refl
        | inr v ↦
            let hidden : visible r.company_id ≡ false = ap visible same ∙ v in
            rw (hidden, v) (find-seen visible c rows ∙ (rw v refl))
      ]
  | inr e ↦ elim (Bool-cases (visible r.company_id)) [
    | inl v ↦ rw (v, e) (find-seen visible c rows)
    | inr v ↦ rw (v, e) (find-seen visible c rows)
  ]
]

setting-cases :
    (session : Session) (c : ℕ) (db : Db)
    → let o =
        setting
          (λ r. r.deposit_percentage)
          c
          (select (λ r. session.visible r.company_id) db.financial_settings) in
      ((x : Decimal) × (o ≡ some x) × States session c x db)
      ⊎ ((o ≡ none) × ((x : Decimal) → ¬ States session c x db))
unfolding setting
setting-cases session c db = elim (Bool-cases (session.visible c)) [
  | inr v ↦ inr (
    rw (setting, find-seen session.visible c db.financial_settings) (rw v refl),
    λ x st. let shown = st.seen in absurd (cc),
  )
  | inl v ↦ elim (Option-cases (find (λ r. r.company_id) c db.financial_settings)) [
    | inl f ↦ inr (
      rw (setting, find-seen session.visible c db.financial_settings) (rw (v, f) refl),
      λ x st. let there = st.found in absurd (cc),
    )
    | inr (r, f) ↦ elim (Option-cases r.deposit_percentage) [
      | inl d ↦ inr (
        rw (setting, find-seen session.visible c db.financial_settings) (rw (v, f) d),
        λ x st.
            let there = st.found in
            let same : st.row ≡ r = cc in
            let stated : r.deposit_percentage ≡ some x =
              ap (λ (y : CompanyFinancialSettings). y.deposit_percentage) (sym same) ∙ st.stated in
            absurd (cc),
      )
      | inr (x, d) ↦ inl (
        x,
        rw (setting, find-seen session.visible c db.financial_settings) (rw (v, f) d),
        record { row = r; found = f; seen = v; stated = d },
      )
    ]
  ]
]

deposit_rate :
    (session : Session) (c : ℕ) (db : Db)
    → DepositRate session c (resolve_financial_settings session c db).deposit_percentage db
unfolding DepositRate resolve_financial_settings or_default
deposit_rate session c db = elim (setting-cases session c db) [
  | inl (x, o, st) ↦ inl (rw o st)
  | inr (o, unstated) ↦ elim (setting-cases session (session.get_root_company_id c) db) [
    | inl (x, o', st) ↦ inr (unstated, inl (rw (o, o') st))
    | inr (o', root_unstated) ↦ inr (unstated, inr (root_unstated, rw (o, o') refl))
  ]
]

-- When the handler returns, either it wrote nothing, and the estimate has no project or the plan of
-- the company does not have the accounting module; or it drafted exactly one invoice, for the project
-- and the estimate and with the next number: of the total times the deposit percentage, rounded to
-- cents, where the percentage is the one that the company's row states, else the root company's, if
-- row-level security shows them to the caller, else 10%. It then added one audit entry, and wrote
-- neither payments nor estimates.
pub estimate_was_approved_lem :
    (session : Session) (p : EstimateApproved) (project : Option ℕ) (db db' : Db)
    → estimate_was_approved session p project db ≡ (ok tt, db')
    → ((db' ≡ db) × ((project ≡ none) ⊎ (tier_allows session p.company_id accounting db ≡ false)))
      ⊎ ((project_id : ℕ) × (total : ℤ) × (rate : Decimal) × (project ≡ some project_id)
          × (tier_allows session p.company_id accounting db ≡ true)
          × (p.approved_total ≡ some total)
          × DepositRate session p.company_id rate db
          × (db'.invoices
              ≡ the_deposit session p project_id (quantize_cents (times (from_cents total) rate)) db
                ∷ db.invoices)
          × (db'.audit_log ≡ deposit_audit session p project_id db ∷ db.audit_log)
          × (db'.invoice_payments ≡ db.invoice_payments)
          × (db'.estimates ≡ db.estimates))
unfolding estimate_was_approved deposit_of_total
estimate_was_approved_lem session p none db db' h = inl (same h, inl refl)
  where
    same : ◌≡◌ {A = Result (Unit {0}) × Db} (ok tt, db) (ok tt, db') → db' ≡ db
    same q = sym (ap (λ (x : Result (Unit {0}) × Db). x.1) q)
estimate_was_approved_lem session p (some project_id) db db' h =
    elim (Bool-cases (tier_allows session p.company_id accounting db)) [
      | inr e ↦ inl (sym (ap (λ (x : Result (Unit {0}) × Db). x.1) (rw e at h)), inr e)
      | inl e ↦ elim (Option-cases p.approved_total) [
        | inl missing ↦ let failed = rw (e, missing) at h in absurd (cc)
        | inr (total, has) ↦
            let left : deposited session p project_id (deposit_of total) db ≡ db' =
              ap (λ (x : Result (Unit {0}) × Db). x.1)
                (sym (estimate_was_approved-eq session p project_id total db has e) ∙ h) in
            inr (
              project_id,
              total,
              (resolve_financial_settings session p.company_id db).deposit_percentage,
              refl,
              e,
              has,
              deposit_rate session p.company_id db,
              ap (λ (x : Db). x.invoices) (sym left),
              ap (λ (x : Db). x.audit_log) (sym left),
              ap (λ (x : Db). x.invoice_payments) (sym left),
              ap (λ (x : Db). x.estimates) (sym left),
            )
      ]
    ]
  where
    deposit_of : ℤ → ℤ
    deposit_of total = quantize_cents (
        times (from_cents total)
          (resolve_financial_settings session p.company_id db).deposit_percentage)
