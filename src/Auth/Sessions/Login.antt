-- ===== src/Auth/Sessions/Login.antt =====
-- What /auth/login checks before it answers with tokens, and what it tells of an account.
use new_builders_stream.Prelude.{
  ℕ, ◌≡◌, refl, ap, sym, ◌∙◌, true, false, Bool-cases, inl, inr, Option, none, some, String, ◌⊎◌,
}
use mathlib.Core.Path.{subst}
use new_builders_stream.Core.Exec.{Result, ok, err, unauthorized}
use new_builders_stream.Auth.RefreshTokens.{mint_refresh_token}
use new_builders_stream.Auth.Accounts.{
  User, CompanyUser, Accounts, Environment, find_by_email, default_membership, or_raise, committed,
  write_user, ◌>>=◌,
}
use new_builders_stream.Auth.Accounts.Chains.{>>=-eq-ok, or_raise-eq-ok, committed-eq-ok}
use new_builders_stream.Auth.Mfa.{Verification, verify_totp_code}
use new_builders_stream.Auth.Sessions.{
  Moment, LoginRequest, TokenResponse, token_response, check_password, challenge, challenge_code,
  challenge_by, login_checks, sign_in, login, enforce_login_rate_limits, after_verification,
  check_rate_limit,
}

pub after_verification-eq-ok :
    (v : Verification) {user : User}
    → after_verification v ≡ ok user
    → v ≡ Verification.accepted user
unfolding after_verification
after_verification-eq-ok (Verification.accepted u) h = cc
after_verification-eq-ok Verification.refused h = absurd (cc)
after_verification-eq-ok Verification.no_secret h = absurd (cc)

module _ (env : Environment) where
  check_password-eq-ok :
      (password : ℕ) (found : Option User) {user : User}
      → check_password env password found ≡ ok user
      → (found ≡ some user) × (env.verify_password password user.password_hash ≡ true)
  unfolding check_password
  check_password-eq-ok password none h = absurd (cc)
  check_password-eq-ok password (some u) {user} h =
      elim (Bool-cases (env.verify_password password u.password_hash)) [
        | inl e ↦ let same : u ≡ user = cc (rw e at h) in rw (← same) (refl, e)
        | inr e ↦ absurd (cc (rw e at h))
      ]

  -- The second factor was passed, or is not asked for.
  abbrev pub Passed : User → Option ℕ → ℕ → User → Type 0
  Passed user code now user' =
      ((user.mfa_activated_at ≡ none) × (user' ≡ user))
      ⊎ ((c : ℕ) × (code ≡ some c)
          × (verify_totp_code env user c now ≡ Verification.accepted user'))

  challenge_code-eq-ok :
      (user : User) (code : Option ℕ) (at : Moment) {user' : User}
      → challenge_code env user code at ≡ ok user'
      → (c : ℕ) × (code ≡ some c)
        × (verify_totp_code env user c at.now ≡ Verification.accepted user')
  unfolding challenge_code
  challenge_code-eq-ok user none at h = absurd (cc)
  challenge_code-eq-ok user (some c) at h =
      elim (Bool-cases (check_rate_limit at.totp_count env.totp_rate_limit_max_attempts)) [
        | inl e ↦
            (c, refl, after_verification-eq-ok (verify_totp_code env user c at.now) (rw e at h))
        | inr e ↦ absurd (cc (rw e at h))
      ]

  Passed-by :
      (activated : Option ℕ) (user : User) (code : Option ℕ) (at : Moment) {user' : User}
      → user.mfa_activated_at ≡ activated
      → challenge_by env activated user code at ≡ ok user'
      → Passed user code at.now user'
  unfolding challenge_by
  Passed-by none user code at e h = inl (e, cc)
  Passed-by (some t) user code at e h = inr (challenge_code-eq-ok user code at h)

  challenge-eq-ok :
      (user : User) (code : Option ℕ) (at : Moment) {user' : User}
      → challenge env user code at ≡ ok user'
      → Passed user code at.now user'
  unfolding challenge
  challenge-eq-ok user code at h = Passed-by user.mfa_activated_at user code at refl h

  sign_in-eq-ok :
      (at : Moment) (s s' : Accounts) (user : User) (membership : CompanyUser) (r : TokenResponse)
      → sign_in env at s (user, membership) ≡ (ok r, s')
      → (r ≡ token_response user membership at.secret)
        × (s' ≡ record (write_user user s) {
          tokens =
              mint_refresh_token env.hash env.refresh_token_lifetime at.secret user.id at.fresh_uuid
                none at.now s.tokens;
        })
  unfolding sign_in
  sign_in-eq-ok at s s' user membership r h = (
    cc (ap (λ (t : Result TokenResponse × Accounts). t.0) h),
    sym (ap (λ (t : Result TokenResponse × Accounts). t.1) h),
  )

  login_checks-eq-ok :
      (payload : LoginRequest) (at : Moment) (s : Accounts) {user' : User}
      {membership : CompanyUser}
      → login_checks env payload at s ≡ ok (user', membership)
      → (user : User) × (find_by_email payload.email s.users ≡ some user)
        × (env.verify_password payload.password user.password_hash ≡ true)
        × Passed user payload.totp_code at.now user'
        × (default_membership env user.id s ≡ some membership)
  unfolding login_checks
  login_checks-eq-ok payload at s {user'} {membership} h =
      let (_, _, a) = >>=-eq-ok (enforce_login_rate_limits env at) _ h in
      let (user, found, b) = >>=-eq-ok (check_password env payload.password _) _ a in
      let (left, passed, c) = >>=-eq-ok (challenge env user payload.totp_code at) _ b in
      let (m, member, d) = >>=-eq-ok (or_raise _ (default_membership env user.id s)) _ c in
      let (known, valid) = check_password-eq-ok payload.password _ found in
      let same : left ≡ user' = cc d in
      (
        user,
        known,
        valid,
        subst (Passed user payload.totp_code at.now) same
            (challenge-eq-ok user payload.totp_code at passed),
        or_raise-eq-ok _ (default_membership env user.id s) member ∙ ap some (cc d),
      )

  -- When login answers with tokens, the address is that of a user whose password hash the password
  -- verifies, a second factor that is active was passed by a code, and the company is the user's
  -- default among the live memberships; what is written is the row that the second factor leaves and
  -- one new refresh token, in a family of its own.
  pub login_lem :
      (payload : LoginRequest) (at : Moment) (s s' : Accounts) (r : TokenResponse)
      → login env payload at s ≡ (ok r, s')
      → (user user' : User) × (membership : CompanyUser) × (find_by_email payload.email s.users
          ≡ some user)
        × (env.verify_password payload.password user.password_hash ≡ true)
        × Passed user payload.totp_code at.now user'
        × (default_membership env user.id s ≡ some membership)
        × (r ≡ token_response user' membership at.secret)
        × (s' ≡ record (write_user user' s) {
          tokens =
              mint_refresh_token env.hash env.refresh_token_lifetime at.secret user'.id
                at.fresh_uuid none at.now s.tokens;
        })
  unfolding login
  login_lem payload at s s' r h =
      let ((user', membership), checked, written) =
        committed-eq-ok s (login_checks env payload at s) _ h in
      let (user, found, valid, passed, member) = login_checks-eq-ok payload at s checked in
      let (answer, tables) = sign_in-eq-ok at s s' user' membership r written in
      (user, user', membership, found, valid, passed, member, answer, tables)

  -- The answer to a wrong password is the answer to an address that nobody has, and neither writes
  -- anything.
  pub login_hides_accounts :
      (payload : LoginRequest) (email : String) (user : User) (at : Moment) (s : Accounts)
      → find_by_email payload.email s.users ≡ some user
      → env.verify_password payload.password user.password_hash ≡ false
      → find_by_email email s.users ≡ none
      → (login env payload at s ≡ login env (record payload { email = email }) at s)
        × ((login env payload at s).1 ≡ s)
  unfolding login login_checks check_password
  login_hides_accounts payload email user at s known wrong unknown =
      rw (known, unknown, check_password, wrong)
        (refl, refused_after (enforce_login_rate_limits env at))
    where
      refused_after :
          (limits : Result (Unit {0}))
          → (committed s
              (limits >>= λ _. err (unauthorized "Invalid email or password"))
              (sign_in env at s)).1
            ≡ s
      refused_after (ok u) = refl
      refused_after (err e) = refl
