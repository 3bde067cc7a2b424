-- ===== src/Auth/Accounts.antt =====
-- The rows of a sign-in: backend/app/models/user.py, company_user.py, password_reset_token.py, and the
-- memberships that backend/app/routers/auth.py reads. What argon2, pyotp, Fernet and SHA-256 compute,
-- the SQL function is_company_live and the settings are parameters.
pub mod Chains
use new_builders_stream.Prelude.{ℕ, Bool, ◌&&◌, ◌==◌, Option, none, some, List, [], ◌∷◌, String}
use new_builders_stream.Prelude.Table.{find, select, replace}
use new_builders_stream.Models.{Role, admin, AuditLog}
use new_builders_stream.Core.Exec.{HttpError, Result, ok, err}
use new_builders_stream.Core.Cursor.{Position}
use new_builders_stream.Core.Pagination.{order_by}
use new_builders_stream.Core.Access.{same_role}
use new_builders_stream.Auth.RefreshTokens.{Tokens}
use package.text.Mathlib.Text.{◌==◌ as str_eq}

pub record User : Type 0 where
  pub id : ℕ
  pub email : String
  pub password_hash : ℕ
  pub mfa_activated_at : Option ℕ
  pub totp_secret_encrypted : Option ℕ
  pub totp_last_used_step : Option ℕ

pub record CompanyUser : Type 0 where
  pub company_id : ℕ
  pub user_id : ℕ
  pub role : Role
  pub created_at : ℕ

pub record PasswordResetToken : Type 0 where
  pub id : ℕ
  pub user_id : ℕ
  pub token_hash : ℕ
  pub expires_at : ℕ
  pub used_at : Option ℕ

-- The tables that the authentication routes read and write.
pub record Accounts : Type 0 where
  pub users : List User
  pub company_users : List CompanyUser
  pub tokens : Tokens
  pub password_reset_tokens : List PasswordResetToken
  pub audit_log : List AuditLog

pub record Environment : Type 0 where
  pub verify_password : ℕ → ℕ → Bool
  pub hash_password : ℕ → ℕ
  pub dummy_password_hash : ℕ
  -- SHA-256 of a secret
  pub hash : ℕ → ℕ
  pub encrypt_token : ℕ → ℕ
  pub decrypt_token : ℕ → ℕ
  -- the code of a TOTP secret at a time step
  pub totp_at : ℕ → ℕ → ℕ
  pub is_company_live : ℕ → Bool
  pub refresh_token_lifetime : ℕ
  pub login_rate_limit_enabled : Bool
  pub login_rate_limit_ip_max_attempts : ℕ
  pub login_rate_limit_email_max_attempts : ℕ
  pub totp_rate_limit_max_attempts : ℕ

unfoldable pub get_user : ℕ → Accounts → Option User
get_user user_id s = find (λ u. u.id) user_id s.users

-- `select(User).where(User.email == email)`; the column is unique.
unfoldable pub find_by_email : String → List User → Option User
find_by_email email [] = none
find_by_email email (u ∷ us) = elim (str_eq u.email email) [
  | Bool.true ↦ some u
  | Bool.false ↦ find_by_email email us
]

abbrev pub write_user : User → Accounts → Accounts
write_user user s = record s { users = replace (λ u. u.id) user s.users }

unfoldable pub membership_key : CompanyUser → Position
membership_key m = record { created_at = m.created_at; id = m.company_id }

unfoldable pub first : {A : Type 0} → List A → Option A
first [] = none
first (x ∷ xs) = some x

unfoldable pub needs_enrollment : CompanyUser → User → Bool
unfolding same_role
needs_enrollment membership user =
    same_role membership.role admin
    && elim user.mfa_activated_at [ none ↦ Bool.true | some t ↦ Bool.false ]

module _ (env : Environment) where
  unfoldable pub is_live_member : ℕ → CompanyUser → Bool
  is_live_member user_id m = m.user_id == user_id && env.is_company_live m.company_id

  -- The oldest live membership.
  unfoldable pub default_membership : ℕ → Accounts → Option CompanyUser
  unfolding first
  default_membership user_id s =
      first (order_by membership_key (select (is_live_member user_id) s.company_users))

  unfoldable pub membership_in : ℕ → ℕ → Accounts → Option CompanyUser
  unfolding first
  membership_in user_id company_id s =
      first (select (λ m. is_live_member user_id m && m.company_id == company_id) s.company_users)

  -- The company that the session switched to, as long as it is a live membership.
  unfoldable pub active_membership : ℕ → Option ℕ → Accounts → Option CompanyUser
  active_membership user_id none s = default_membership user_id s
  active_membership user_id (some company_id) s = elim (membership_in user_id company_id s) [
    | some m ↦ some m
    | none ↦ default_membership user_id s
  ]

-- Two texts, by whether the user has a membership at all.
unfoldable pub no_membership_detail : ℕ → Accounts → String
unfolding first
no_membership_detail user_id s = elim (first (select (λ m. m.user_id == user_id) s.company_users)) [
  | none ↦ "User has no company memberships"
  | some m ↦ "This company is no longer active. Contact your administrator."
]

-- The checks of a handler in their order: the first that raises ends it.
abbrev pub and_then : {A B : Type 0} → (A → Result B) → Result A → Result B
and_then next (err raised) = err raised
and_then next (ok found) = next found

infixl 5 ◌>>=◌
abbrev pub ◌>>=◌ : {A B : Type 0} → Result A → (A → Result B) → Result B
check >>= next = and_then next check

infixl 5 ◌>>◌
abbrev pub ◌>>◌ : {B : Type 0} → Result (Unit {0}) → Result B → Result B
check >> rest = and_then (λ _. rest) check

-- `if not passed: raise error`.
abbrev pub require : Bool → HttpError → Result (Unit {0})
require Bool.false error = err error
require Bool.true error = ok tt

abbrev pub or_raise : {A : Type 0} → HttpError → Option A → Result A
or_raise e none = err e
or_raise e (some a) = ok a

-- A transaction that commits after its checks: an exception before the commit leaves the tables.
abbrev pub committed :
    {A B : Type 0} → Accounts → Result A → (A → Result B × Accounts) → Result B × Accounts
committed s (ok a) write = write a
committed s (err e) write = (err e, s)

-- `write_audit_log` without metadata.
unfoldable pub log_action : ℕ → ℕ → String → String → ℕ → Accounts → Accounts
log_action company_id actor_id action entity_type entity_id s = record s {
  audit_log =
      record {
        company_id = company_id;
        actor_id = some actor_id;
        action = action;
        entity_type = entity_type;
        entity_id = entity_id;
        log_metadata = [];
      }
      ∷ s.audit_log;
}
