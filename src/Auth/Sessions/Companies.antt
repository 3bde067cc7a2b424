-- ===== src/Auth/Sessions/Companies.antt =====
-- The company of a session: /auth/switch-company, then /auth/refresh.
use new_builders_stream.Prelude.{
  ℕ, ◌+◌, ◌<◌, ◌≡◌, refl, ap, ◌∙◌, Bool, true, false, Bool-cases, inl, inr, Option, none, some,
  List, [], ◌∷◌, ◌&&◌, ◌==◌, not, leb, arith,
}
use new_builders_stream.Prelude.Table.{select}
use mathlib.Core.Path.{subst}
use new_builders_stream.Core.Exec.{ok}
use new_builders_stream.Auth.RefreshTokens.{
  RefreshToken, Tokens, find_by_secret, was_used, rotate_refresh_token, replace_token, or_keep,
  rotated,
}
use new_builders_stream.Auth.RefreshTokens.OneLive.{Keyed, find_old}
use new_builders_stream.Auth.RefreshTokens.Successor.{rotates, successor_rotates}
use new_builders_stream.Auth.Accounts.{
  User, CompanyUser, Accounts, Environment, get_user, membership_in, active_membership,
  is_live_member, first, log_action,
}
use new_builders_stream.Auth.Sessions.{
  Moment, token_response, refresh, refreshed, refresh_checks, switch_company, switched,
  switch_checks, may_switch, token_is_live,
}

module _ (env : Environment) where
  first-select :
      (p : CompanyUser → Bool) (rows : List CompanyUser) {m : CompanyUser}
      → first (select p rows) ≡ some m
      → p m ≡ true
  unfolding first select
  first-select p [] h = absurd (cc)
  first-select p (x ∷ rows) h = elim (Bool-cases (p x)) [
    | inl e ↦ subst (λ z. p z ≡ true) (cc (rw e at h)) e
    | inr e ↦ first-select p rows (rw e at h)
  ]

  active_membership-eq :
      (user_id user_id' company_id : ℕ) (active : Option ℕ) (s : Accounts) {m : CompanyUser}
      → user_id' ≡ user_id
      → active ≡ some company_id
      → membership_in env user_id company_id s ≡ some m
      → active_membership env user_id' active s ≡ some m
  unfolding active_membership
  active_membership-eq user_id user_id' company_id active s whose company member =
      ap (λ u. active_membership env u active s) whose
      ∙ (ap (λ a. active_membership env user_id a s) company ∙ rw (active_membership, member))

  refreshed_lem :
      (later : Moment) (s : Accounts) (old : RefreshToken) (tokens : Tokens) (user : User)
      (m : CompanyUser)
      → active_membership env old.user_id old.active_company_id s ≡ some m
      → get_user old.user_id s ≡ some user
      → (refreshed env later s (rotated old, tokens)).0 ≡ ok (token_response user m later.secret)
  unfolding refreshed refresh_checks
  refreshed_lem later s old tokens user m member known =
      rw (refreshed, refresh_checks, member, known)

  module _ (presented company_id : ℕ) (at : Moment) (s : Accounts) (r : RefreshToken) (user : User)
      (m : CompanyUser) (keyed : Keyed s.tokens)
      (found : find_by_secret env.hash env.refresh_token_lifetime presented s.tokens ≡ some r)
      (fresh : was_used env.hash env.refresh_token_lifetime r ≡ false)
      (good : leb r.expires_at at.now ≡ false)
      (member : membership_in env r.user_id company_id s ≡ some m)
      (known : get_user r.user_id s ≡ some user) where
    abbrev after_switch : Tokens
    after_switch =
        (replace_token env.hash env.refresh_token_lifetime at.secret (some company_id) at.now r
          s.tokens).1

    allowed : may_switch env at.now company_id s (some r) ≡ true
    unfolding may_switch
    allowed = rw member (off (token_is_live env at.now r))
      where
        off : (b : Bool) → not (b && false) ≡ true
        off true = refl
        off false = refl

    switch_company_lem : switch_company env presented company_id at s ≡ (
      ok (token_response user m at.secret),
      log_action m.company_id r.user_id "auth.company_switched" "company" m.company_id
          (record s { tokens = after_switch }),
    )
    unfolding switch_company switched switch_checks or_keep
    switch_company_lem =
        rw
          (
            switch_company,
            found,
            allowed,
            rotates env.hash env.refresh_token_lifetime presented at.secret at.now
                (some (some company_id)) r s.tokens found fresh good,
            switched,
            switch_checks,
            member,
            known,
          )
          refl

    -- What was written leaves the memberships and the users alone.
    abbrev written : Accounts
    written =
        log_action m.company_id r.user_id "auth.company_switched" "company" m.company_id
          (record s { tokens = after_switch })

    member_still : membership_in env r.user_id company_id written ≡ some m
    unfolding membership_in log_action
    member_still = member

    known_still : get_user r.user_id written ≡ some user
    unfolding get_user log_action
    known_still = known

    older : r.id < s.tokens.next_id
    unfolding find_by_secret
    older =
        find_old s.tokens.next_id r.id r s.tokens.rows keyed.old_ids
          (keyed.by_hash (env.hash presented) r found)

    rotated_again :
        (later : Moment)
        → later.now < at.now + env.refresh_token_lifetime
        → (tokens : Tokens) × (old : RefreshToken) × (rotate_refresh_token env.hash
              env.refresh_token_lifetime at.secret later.secret none later.now written.tokens
            ≡ (rotated old, tokens))
          × (old.user_id ≡ r.user_id)
          × (old.active_company_id ≡ some company_id)
    unfolding log_action
    rotated_again later alive = (
      _,
      _,
      successor_rotates env.hash env.refresh_token_lifetime at.secret later.secret at.now later.now
          (some company_id) r s.tokens older alive,
      refl,
      refl,
    )

    refresh_after :
        (later : Moment)
        → later.now < at.now + env.refresh_token_lifetime
        → (refresh env at.secret later written).0 ≡ ok (token_response user m later.secret)
    unfolding refresh
    refresh_after later alive =
        let (tokens, old, e, whose, company) = rotated_again later alive in
        rw (refresh, e)
          (refreshed_lem later written old tokens user m
            (active_membership-eq r.user_id old.user_id company_id old.active_company_id written
              whose company member_still)
            (ap (λ i. get_user i written) whose ∙ known_still))

    same_company : m.company_id ≡ company_id
    unfolding membership_in
    same_company =
        let matches =
          first-select (λ x. is_live_member env r.user_id x && x.company_id == company_id)
            s.company_users member in
        ground (arith, matches)

    -- A live token switches to a company of which its user is a live member: the answer names that
    -- company, and so does the answer to a refresh with the new token before it expires.
    pub switch_survives_refresh :
        (later : Moment)
        → later.now < at.now + env.refresh_token_lifetime
        → let (answer, s') = switch_company env presented company_id at s in
          (m.company_id ≡ company_id)
          × (answer ≡ ok (token_response user m at.secret))
          × ((refresh env at.secret later s').0 ≡ ok (token_response user m later.secret))
    switch_survives_refresh later alive =
        rw switch_company_lem (same_company, refl, refresh_after later alive)
