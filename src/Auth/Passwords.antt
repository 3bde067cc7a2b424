-- ===== src/Auth/Passwords.antt =====
-- Passwords and second factors: backend/app/services/password_reset.py and the routes
-- /auth/password-reset, /auth/change-password and /auth/mfa of backend/app/routers/auth.py.
pub mod Reset
pub mod Change
use new_builders_stream.Prelude.{
  ℕ, ◌+◌, ◌==◌, ◌&&◌, ◌||◌, not, leb, is_none, Bool, true, false, if◌then◌else◌, Option, none, some,
  String, List, [], ◌∷◌,
}
use new_builders_stream.Prelude.Table.{find, replace, update_where, select}
use new_builders_stream.Core.Exec.{
  Result, ok, err, HttpError, bad_request, unauthorized, conflict, server_error,
}
use new_builders_stream.Core.Pagination.{order_by}
use new_builders_stream.Auth.RefreshTokens.{revoke_all_for_user}
use new_builders_stream.Auth.Accounts.{
  User, CompanyUser, PasswordResetToken, Accounts, Environment, get_user, find_by_email, write_user,
  membership_key, first, ◌>>=◌, ◌>>◌, require, or_raise, committed, log_action,
}
use new_builders_stream.Auth.Mfa.{verify_totp_code}
use new_builders_stream.Auth.Sessions.{Moment, after_verification, enforce_login_rate_limits}

-- RESET_TOKEN_TTL, in seconds.
abbrev pub reset_token_ttl : ℕ
reset_token_ttl = 3600

-- A link that has not been used, of one user.
unfoldable pub is_outstanding : ℕ → PasswordResetToken → Bool
is_outstanding user_id t = t.user_id == user_id && is_none t.used_at

abbrev pub spent : ℕ → PasswordResetToken → PasswordResetToken
spent now t = record t { used_at = some now }

unfoldable pub is_redeemable : ℕ → PasswordResetToken → Bool
is_redeemable now t = is_none t.used_at && not (leb t.expires_at now)

-- The oldest membership of the user, live or not; of two of one instant the one of the lower company.
unfoldable pub first_company : ℕ → Accounts → Option CompanyUser
unfolding first
first_company user_id s =
    first (order_by membership_key (select (λ m. m.user_id == user_id) s.company_users))

abbrev pub invalid_link : HttpError
invalid_link = bad_request "This reset link is no longer valid. Request a new one."

pub record PasswordResetConfirmRequest : Type 0 where
  pub token : ℕ
  pub new_password : ℕ
  pub totp_code : Option ℕ

module _ (env : Environment) where
  -- The new row of `issue_for_email`.
  abbrev pub reset_token : User → Moment → PasswordResetToken
  reset_token user at = record {
    id = at.fresh_uuid;
    user_id = user.id;
    token_hash = env.hash at.secret;
    expires_at = at.now + reset_token_ttl;
    used_at = none;
  }

  -- The links that are outstanding are spent before the new one is inserted.
  unfoldable pub issue_to : User → Moment → Accounts → Accounts
  issue_to user at s = record s {
    password_reset_tokens =
        reset_token user at
        ∷ update_where (is_outstanding user.id) (spent at.now) s.password_reset_tokens;
  }

  -- The user and the secret that the mail is sent with, if the address is known.
  unfoldable pub issue_for_email : String → Moment → Accounts → Option (User × ℕ) × Accounts
  issue_for_email email at s = elim (find_by_email email s.users) [
    | none ↦ (none, s)
    | some user ↦ (some (user, at.secret), issue_to user at s)
  ]

  -- The answer is the same for every address; what is mailed is not part of it.
  unfoldable pub request_password_reset : String → Moment → Accounts → Result (Unit {0}) × Accounts
  request_password_reset email at s =
      committed s (enforce_login_rate_limits env at) λ _. (ok tt, (issue_for_email email at s).1)

  -- The second factor where it is active, with no limit on the rate.
  unfoldable pub second_factor_by : Option ℕ → User → Option ℕ → ℕ → Result User
  second_factor_by none user code now = ok user
  second_factor_by (some activated) user none now = err (unauthorized "TOTP code required")
  second_factor_by (some activated) user (some code) now =
      after_verification (verify_totp_code env user code now)

  unfoldable pub second_factor : User → Option ℕ → ℕ → Result User
  second_factor user code now = second_factor_by user.mfa_activated_at user code now

  -- `redeem`: one answer for unknown, used and expired links.
  unfoldable pub redeem : ℕ → ℕ → Option PasswordResetToken → Result PasswordResetToken
  redeem secret now none = err invalid_link
  redeem secret now (some t) = if is_redeemable now t then ok t else err invalid_link

  unfoldable pub find_link : ℕ → Accounts → Option PasswordResetToken
  find_link secret s = find (λ t. t.token_hash) (env.hash secret) s.password_reset_tokens

  unfoldable pub confirm_checks :
      PasswordResetConfirmRequest → ℕ → Accounts → Result (PasswordResetToken × User)
  confirm_checks payload now s = do
    t ← redeem payload.token now (find_link payload.token s)
    user ← or_raise invalid_link (get_user t.user_id s)
    proved ← second_factor user payload.totp_code now
    ok (t, proved)

  -- The new password, and the end of every session of the user.
  unfoldable pub set_password : User → ℕ → ℕ → Accounts → Accounts
  set_password user new_password now s =
      record (write_user (record user { password_hash = env.hash_password new_password }) s) {
        tokens = revoke_all_for_user user.id now s.tokens;
      }

  -- The session of a reset sets neither app.current_tenant nor app.current_user_id, so row-level
  -- security shows it no row of company_users and the query finds no company.
  unfoldable pub audit_reset : ℕ → Accounts → Accounts
  audit_reset user_id s = elim (first_company user_id (record s { company_users = [] })) [
    | none ↦ s
    | some m ↦ log_action m.company_id user_id "auth.password_reset" "user" user_id s
  ]

  unfoldable pub reset_password :
      PasswordResetConfirmRequest
      → ℕ
      → Accounts
      → PasswordResetToken × User
      → Result (Unit {0}) × Accounts
  reset_password payload now s (t, user) =
      let changed = set_password user payload.new_password now s in
      (
        ok tt,
        audit_reset user.id (record changed {
          password_reset_tokens = replace (λ x. x.id) (spent now t) s.password_reset_tokens;
        }),
      )

  unfoldable pub confirm_password_reset :
      PasswordResetConfirmRequest → ℕ → Accounts → Result (Unit {0}) × Accounts
  confirm_password_reset payload now s =
      committed s (confirm_checks payload now s) (reset_password payload now s)

  -- `current.user` is the row of the caller, and `company_id` the company of the request.
  unfoldable pub verify_current : User → ℕ → Result (Unit {0})
  verify_current user password =
      require (env.verify_password password user.password_hash)
        (unauthorized "Invalid current password")

  unfoldable pub change_checks : User → ℕ → Option ℕ → ℕ → Result User
  change_checks user current_password code now = do
    verify_current user current_password
    second_factor user code now

  unfoldable pub change_password :
      User → ℕ → ℕ → ℕ → Option ℕ → ℕ → Accounts → Result (Unit {0}) × Accounts
  change_password user company_id current_password new_password code now s =
      committed s (change_checks user current_password code now) λ proved. (
        ok tt,
        log_action company_id proved.id "auth.password_changed" "user" proved.id
            (set_password proved new_password now s),
      )

  -- A new secret, which is not active yet.
  unfoldable pub mfa_enroll : User → ℕ → Accounts → Result ℕ × Accounts
  mfa_enroll user drawn s =
      committed s (require (is_none user.mfa_activated_at) (conflict "MFA is already active")) λ _.
        (
          ok drawn,
          write_user
              (record user {
                totp_secret_encrypted = some (env.encrypt_token drawn);
                totp_last_used_step = none;
              })
              s,
        )

  unfoldable pub activate_checks : User → ℕ → ℕ → Result User
  activate_checks user code now = do
    require (not (is_none user.totp_secret_encrypted)) (bad_request "No MFA enrollment pending")
    require (is_none user.mfa_activated_at) (conflict "MFA is already active")
    after_verification (verify_totp_code env user code now)

  unfoldable pub mfa_activate : User → ℕ → ℕ → ℕ → Accounts → Result (Unit {0}) × Accounts
  mfa_activate user company_id code now s = committed s (activate_checks user code now) λ proved. (
    ok tt,
    log_action company_id proved.id "auth.mfa_activated" "user" proved.id
        (write_user (record proved { mfa_activated_at = some now }) s),
  )

  -- Both factors are asked for.
  unfoldable pub disable_checks : User → ℕ → ℕ → ℕ → Result User
  disable_checks user current_password code now = do
    require (not (is_none user.mfa_activated_at)) (bad_request "MFA is not active")
    verify_current user current_password
    after_verification (verify_totp_code env user code now)

  abbrev pub without_mfa : User → User
  without_mfa user = record user {
    totp_secret_encrypted = none;
    mfa_activated_at = none;
    totp_last_used_step = none;
  }

  unfoldable pub mfa_disable : User → ℕ → ℕ → ℕ → ℕ → Accounts → Result (Unit {0}) × Accounts
  mfa_disable user company_id current_password code now s =
      committed s (disable_checks user current_password code now) λ proved. (
        ok tt,
        log_action company_id proved.id "auth.mfa_disabled" "user" proved.id
            (record (write_user (without_mfa proved) s) {
              tokens = revoke_all_for_user proved.id now s.tokens;
            }),
      )
