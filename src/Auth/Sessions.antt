-- ===== src/Auth/Sessions.antt =====
-- Sign-in and sessions: /auth/login, /auth/refresh, /auth/switch-company and /auth/logout of
-- backend/app/routers/auth.py, with check_rate_limit of backend/app/services/rate_limit.py.
pub mod Login
pub mod Companies
use new_builders_stream.Prelude.{
  ℕ, ◌==◌, ◌&&◌, ◌||◌, not, leb, is_none, Bool, true, false, if◌then◌else◌, Option, none, some,
  String, ◌∷◌, [],
}
use new_builders_stream.Models.{Role, uuid}
use new_builders_stream.Core.Exec.{
  Result, ok, err, HttpError, unauthorized, forbidden, too_many_requests, server_error,
}
use new_builders_stream.Auth.RefreshTokens.{
  RefreshToken, Tokens, TokenError, unknown_token, expired_token, reuse_detected, Rotation, rotated,
  refused, mint_refresh_token, rotate_refresh_token, find_by_secret, was_used, revoke_family,
}
use new_builders_stream.Auth.Accounts.{
  User, CompanyUser, Accounts, Environment, get_user, find_by_email, write_user, needs_enrollment,
  default_membership, membership_in, active_membership, no_membership_detail, ◌>>=◌, ◌>>◌, require,
  or_raise, committed, log_action,
}
use new_builders_stream.Auth.Mfa
use new_builders_stream.Auth.Mfa.{Verification, verify_totp_code}

-- What a request meets: the clock, the secret and the uuid that are drawn, and what INCR answers
-- for each counter of the rate limits; none for an outage.
pub record Moment : Type 0 where
  pub now : ℕ
  pub secret : ℕ
  pub fresh_uuid : ℕ
  pub ip_count : Option ℕ
  pub email_count : Option ℕ
  pub totp_count : Option ℕ

pub record LoginRequest : Type 0 where
  pub email : String
  pub password : ℕ
  pub totp_code : Option ℕ

-- The access token is shown by its claims.
pub record TokenResponse : Type 0 where
  pub user_id : ℕ
  pub default_company_id : ℕ
  pub refresh_token : ℕ
  pub mfa_enrollment_required : Bool
  pub role : Role

unfoldable pub token_response : User → CompanyUser → ℕ → TokenResponse
token_response user membership secret = record {
  user_id = user.id;
  default_company_id = membership.company_id;
  refresh_token = secret;
  mfa_enrollment_required = needs_enrollment membership user;
  role = membership.role;
}

-- `check_rate_limit`: an outage lets the caller pass.
unfoldable pub check_rate_limit : Option ℕ → ℕ → Bool
check_rate_limit none max_attempts = true
check_rate_limit (some count) max_attempts = leb count max_attempts

unfoldable pub after_verification : Verification → Result User
after_verification (Verification.accepted user) = ok user
after_verification Verification.refused = err (unauthorized "Invalid TOTP code")
after_verification Verification.no_secret =
    err (server_error "verify_totp_code called for a user with no stored TOTP secret")

module _ (env : Environment) where
  -- `_enforce_login_rate_limits`.
  unfoldable pub enforce_login_rate_limits : Moment → Result (Unit {0})
  unfolding check_rate_limit
  enforce_login_rate_limits at =
      require
        (not env.login_rate_limit_enabled
          || check_rate_limit at.ip_count env.login_rate_limit_ip_max_attempts
            && check_rate_limit at.email_count env.login_rate_limit_email_max_attempts)
        (too_many_requests "Too many login attempts. Please try again later.")

  -- The password is verified for an unknown address too, against a hash of its own.
  unfoldable pub check_password : ℕ → Option User → Result User
  check_password password none =
      let spent = env.verify_password password env.dummy_password_hash in
      err (unauthorized "Invalid email or password")
  check_password password (some user) =
      if env.verify_password password user.password_hash
      then ok user
      else err (unauthorized "Invalid email or password")

  unfoldable pub challenge_code : User → Option ℕ → Moment → Result User
  challenge_code user none at = err (unauthorized "TOTP code required")
  challenge_code user (some code) at = do
    require (check_rate_limit at.totp_count env.totp_rate_limit_max_attempts)
        (too_many_requests "Too many verification attempts. Please try again later.")
    after_verification (verify_totp_code env user code at.now)

  unfoldable pub challenge_by : Option ℕ → User → Option ℕ → Moment → Result User
  unfolding challenge_code
  challenge_by none user code at = ok user
  challenge_by (some activated) user code at = challenge_code user code at

  unfoldable pub challenge : User → Option ℕ → Moment → Result User
  unfolding challenge_by
  challenge user code at = challenge_by user.mfa_activated_at user code at

  unfoldable pub login_checks : LoginRequest → Moment → Accounts → Result (User × CompanyUser)
  login_checks payload at s = do
    enforce_login_rate_limits at
    user ← check_password payload.password (find_by_email payload.email s.users)
    challenged ← challenge user payload.totp_code at
    membership ←
        or_raise (forbidden (no_membership_detail user.id s)) (default_membership env user.id s)
    ok (challenged, membership)

  -- The replay guard of an accepted code and the new refresh token are committed together.
  unfoldable pub sign_in : Moment → Accounts → User × CompanyUser → Result TokenResponse × Accounts
  unfolding token_response
  sign_in at s (user, membership) = (
    ok (token_response user membership at.secret),
    record (write_user user s) {
      tokens =
          mint_refresh_token env.hash env.refresh_token_lifetime at.secret user.id at.fresh_uuid
            none at.now s.tokens;
    },
  )

  unfoldable pub login : LoginRequest → Moment → Accounts → Result TokenResponse × Accounts
  login payload at s = committed s (login_checks payload at s) (sign_in at s)

  -- The family of a reused token stays revoked, with an audit entry if there is a company for it.
  unfoldable pub contain_reuse : ℕ → ℕ → Accounts → Accounts
  contain_reuse user_id family_id s = elim (default_membership env user_id s) [
    | none ↦ s
    | some m ↦ record s {
      audit_log =
          record {
            company_id = m.company_id;
            actor_id = some user_id;
            action = "auth.refresh_reuse_detected";
            entity_type = "refresh_token";
            entity_id = family_id;
            log_metadata = ("family_id", uuid family_id) ∷ [];
          }
          ∷ s.audit_log;
    }
  ]

  abbrev pub invalid_token : HttpError
  invalid_token = unauthorized "Invalid refresh token"

  -- The exceptions of a rotation: only the containment of a reuse is committed.
  unfoldable pub rejected : {A : Type 0} → Accounts → Tokens → TokenError → Result A × Accounts
  unfolding contain_reuse
  rejected s tokens (reuse_detected user_id family_id) =
      (err invalid_token, contain_reuse user_id family_id (record s { tokens = tokens }))
  rejected s tokens unknown_token = (err invalid_token, s)
  rejected s tokens expired_token = (err invalid_token, s)

  unfoldable pub refresh_checks : RefreshToken → Accounts → Result (User × CompanyUser)
  refresh_checks old s = do
    membership ←
        or_raise (forbidden (no_membership_detail old.user_id s))
          (active_membership env old.user_id old.active_company_id s)
    user ← or_raise (server_error "No row was found when one was required") (get_user old.user_id s)
    ok (user, membership)

  -- What follows the rotation: `rotated` and the exceptions.
  unfoldable pub refreshed : Moment → Accounts → Rotation × Tokens → Result TokenResponse × Accounts
  refreshed at s (rotated old, tokens) = committed s (refresh_checks old s) λ (user, membership).
      (ok (token_response user membership at.secret), record s { tokens = tokens })
  refreshed at s (refused e, tokens) = rejected s tokens e

  unfoldable pub refresh : ℕ → Moment → Accounts → Result TokenResponse × Accounts
  refresh presented at s = refreshed at s (
      rotate_refresh_token env.hash env.refresh_token_lifetime presented at.secret none at.now
        s.tokens)

  -- Neither used nor expired.
  unfoldable pub token_is_live : ℕ → RefreshToken → Bool
  token_is_live now row =
      is_none row.revoked_at && (is_none row.replaced_by_id && not (leb row.expires_at now))

  -- A live token is not spent on a company that its user is no member of.
  unfoldable pub may_switch : ℕ → ℕ → Accounts → Option RefreshToken → Bool
  may_switch now company_id s none = true
  may_switch now company_id s (some row) =
      not (token_is_live now row && is_none (membership_in env row.user_id company_id s))

  unfoldable pub switch_checks : ℕ → RefreshToken → Accounts → Result (User × CompanyUser)
  switch_checks company_id old s = do
    membership ←
        or_raise (forbidden "You are not a member of that company")
          (membership_in env old.user_id company_id s)
    user ← or_raise (server_error "No row was found when one was required") (get_user old.user_id s)
    ok (user, membership)

  unfoldable pub switched :
      ℕ → Moment → Accounts → Rotation × Tokens → Result TokenResponse × Accounts
  switched company_id at s (rotated old, tokens) =
      committed s (switch_checks company_id old s) λ (user, membership). (
        ok (token_response user membership at.secret),
        log_action membership.company_id old.user_id "auth.company_switched" "company"
            membership.company_id (record s { tokens = tokens }),
      )
  switched company_id at s (refused e, tokens) = rejected s tokens e

  unfoldable pub switch_company : ℕ → ℕ → Moment → Accounts → Result TokenResponse × Accounts
  switch_company presented company_id at s =
      if may_switch at.now company_id s
        (find_by_secret env.hash env.refresh_token_lifetime presented s.tokens)
      then switched company_id at s (
          rotate_refresh_token env.hash env.refresh_token_lifetime presented at.secret
            (some (some company_id)) at.now s.tokens)
      else (err (forbidden "You are not a member of that company"), s)

  -- An unknown token is answered like a known one.
  unfoldable pub logout : ℕ → Moment → Accounts → Accounts
  logout presented at s =
      elim (find_by_secret env.hash env.refresh_token_lifetime presented s.tokens) [
        | none ↦ s
        | some row ↦ record s { tokens = revoke_family row.family_id at.now s.tokens }
      ]
