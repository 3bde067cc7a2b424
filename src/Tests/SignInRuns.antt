-- ===== src/Tests/SignInRuns.antt =====
-- Sign-in at concrete data: user 3 of the companies 1 and 2, with and without a second factor.
use new_builders_stream.Prelude.{
  ℕ, ◌+◌, ◌≡◌, ◌≤◌, ◌/◌, refl, false, some, none, [], ◌∷◌, ◌==◌, arith, true, inl, inr, Bool-cases,
}
use new_builders_stream.Prelude.Table.{find, select, replace}
use new_builders_stream.Models.{project_manager, admin}
use new_builders_stream.Core.Exec.{ok, err}
use new_builders_stream.Core.Pagination.{order_by}
use new_builders_stream.Auth.RefreshTokens.{
  minted, find_by_secret, was_used, mint_refresh_token, RefreshToken,
}
use new_builders_stream.Auth.RefreshTokens.OneLive.{Keyed}
use new_builders_stream.Auth.Accounts.{
  User, CompanyUser, Accounts, Environment, PasswordResetToken, find_by_email, get_user, write_user,
  default_membership, membership_in, membership_key, is_live_member,
}
use new_builders_stream.Auth.Mfa.{verify_totp_code, try_steps, refused, totp_period_seconds}
use new_builders_stream.Auth.Mfa.SingleUse.{IsLater, verify_totp_code_lem}
use new_builders_stream.Auth.Sessions.{
  Moment, token_response, login, login_checks, sign_in, enforce_login_rate_limits, check_password,
  challenge,
}
use new_builders_stream.Auth.Sessions.Login.{Passed, login_lem, login_hides_accounts}
use new_builders_stream.Auth.Passwords.{
  change_password, second_factor, confirm_password_reset, reset_token, find_link, is_redeemable,
  invalid_link, PasswordResetConfirmRequest, change_checks, verify_current, second_factor_by,
  set_password, redeem, confirm_checks, reset_password,
}
use new_builders_stream.Auth.Passwords.Change.{live_sessions, change_password_lem}
use new_builders_stream.Auth.Passwords.Reset.{confirm_password_reset_lem, HasLinkKeys}

abbrev pub env : Environment
env = record {
  verify_password = λ password hash. password == hash;
  hash_password = λ password. password;
  dummy_password_hash = 0;
  hash = λ secret. secret + 7;
  encrypt_token = λ secret. secret;
  decrypt_token = λ secret. secret;
  totp_at = λ secret step. secret + step;
  is_company_live = λ c. true;
  refresh_token_lifetime = 1000;
  login_rate_limit_enabled = true;
  login_rate_limit_ip_max_attempts = 10;
  login_rate_limit_email_max_attempts = 10;
  totp_rate_limit_max_attempts = 5;
}

abbrev at : Moment
at = record {
  now = 300;
  secret = 12;
  fresh_uuid = 60;
  ip_count = some 1;
  email_count = some 1;
  totp_count = none;
}

abbrev later : Moment
later = record at { now = 900; secret = 13 }

abbrev pat : User
pat = record {
  id = 3;
  email = "pat@example.com";
  password_hash = 55;
  mfa_activated_at = none;
  totp_secret_encrypted = none;
  totp_last_used_step = none;
}

abbrev careful_pat : User
careful_pat = record pat { mfa_activated_at = some 100; totp_secret_encrypted = some 1000 }

abbrev home : CompanyUser
home = record { company_id = 1; user_id = 3; role = admin; created_at = 10 }

abbrev branch : CompanyUser
branch = record { company_id = 2; user_id = 3; role = project_manager; created_at = 20 }

abbrev token : RefreshToken
token = minted env.hash 1000 1 11 3 50 none 100

abbrev pub tables : Accounts
tables = record {
  users = pat ∷ [];
  company_users = branch ∷ home ∷ [];
  tokens = record { rows = token ∷ []; next_id = 2 };
  password_reset_tokens = [];
  audit_log = [];
}

-- The code of the step of the present moment.
verify_totp_code_lem_example :
    (encrypted step : ℕ) × (careful_pat.totp_secret_encrypted ≡ some encrypted)
    × (1010 ≡ env.totp_at (env.decrypt_token encrypted) step)
    × (300 / totp_period_seconds ≤ step + 1)
    × (step ≤ 300 / totp_period_seconds + 1)
    × IsLater step careful_pat.totp_last_used_step
    × (record careful_pat { totp_last_used_step = some 10 }
        ≡ record careful_pat { totp_last_used_step = some step })
    × (verify_totp_code env (record careful_pat { totp_last_used_step = some 10 }) 1010 300
        ≡ refused)
unfolding verify_totp_code try_steps
verify_totp_code_lem_example =
    verify_totp_code_lem env careful_pat (record careful_pat { totp_last_used_step = some 10 }) 1010
      300 refl

login_lem_example :
    (user user' : User) × (membership : CompanyUser) × (find_by_email "pat@example.com" tables.users
      ≡ some user)
    × (env.verify_password 55 user.password_hash ≡ true)
    × Passed env user none 300 user'
    × (default_membership env user.id tables ≡ some membership)
    × (token_response pat home 12 ≡ token_response user' membership 12)
    × ((login env
          (record { email = "pat@example.com"; password = 55; totp_code = none })
          at
          tables).1
        ≡ record (write_user user' tables) {
          tokens =
              mint_refresh_token env.hash env.refresh_token_lifetime 12 user'.id 60 none 300
                tables.tokens;
        })
unfolding login login_checks enforce_login_rate_limits check_password challenge sign_in
    find_by_email default_membership order_by membership_key select is_live_member replace
    mint_refresh_token
login_lem_example =
    login_lem env (record { email = "pat@example.com"; password = 55; totp_code = none }) at tables
      _ (token_response pat home 12) refl

mistaken : find_by_email "pat@example.com" tables.users ≡ some pat
unfolding find_by_email
mistaken = refl

nobody : find_by_email "sam@example.com" tables.users ≡ none
unfolding find_by_email
nobody = refl

login_hides_accounts_example :
    (login env (record { email = "pat@example.com"; password = 56; totp_code = none }) at tables
      ≡ login env (record { email = "sam@example.com"; password = 56; totp_code = none }) at tables)
    × ((login env
          (record { email = "pat@example.com"; password = 56; totp_code = none })
          at
          tables).1
        ≡ tables)
login_hides_accounts_example =
    login_hides_accounts env (record { email = "pat@example.com"; password = 56; totp_code = none })
      "sam@example.com" pat at tables mistaken refl nobody

token-Keyed : Keyed tables.tokens
unfolding find
token-Keyed = record { by_hash = only; old_ids = (omega arith, tt) }
  where
    only :
        (h : ℕ) (r : RefreshToken)
        → find (λ x. x.token_hash) h tables.tokens.rows ≡ some r
        → find (λ x. x.id) r.id tables.tokens.rows ≡ some r
    only h r e = elim (Bool-cases (18 == h)) [
      | inl q ↦ let same : r ≡ token = cc (rw q at e) in rw same refl
      | inr q ↦ absurd (cc (rw q at e))
    ]

presented_token : find_by_secret env.hash env.refresh_token_lifetime 11 tables.tokens ≡ some token
unfolding find_by_secret find
presented_token = refl

token_unused : was_used env.hash env.refresh_token_lifetime token ≡ false
unfolding was_used
token_unused = refl

pat_in_branch : membership_in env 3 2 tables ≡ some branch
unfolding membership_in is_live_member select
pat_in_branch = refl

pat_row : get_user 3 tables ≡ some pat
unfolding get_user find
pat_row = refl

change_password_lem_example :
    (proved : User) × (env.verify_password 55 pat.password_hash ≡ true)
    × (second_factor env pat none 300 ≡ ok proved)
    × (get_user 3 (change_password env pat 1 55 77 none 300 tables).1
        ≡ some (record proved { password_hash = env.hash_password 77 }))
    × (live_sessions 3 (change_password env pat 1 55 77 none 300 tables).1.tokens ≡ 0)
unfolding change_password change_checks verify_current second_factor second_factor_by set_password
change_password_lem_example = change_password_lem env pat 1 55 77 none 300 tables _ pat_row refl

abbrev guarded : Accounts
guarded = record tables { users = careful_pat ∷ [] }

guarded_row : get_user 3 guarded ≡ some careful_pat
unfolding get_user find
guarded_row = refl

abbrev mailed : Accounts
mailed = record tables { password_reset_tokens = reset_token env pat at ∷ [] }

mailed-HasLinkKeys : HasLinkKeys env mailed
unfolding find_link find
mailed-HasLinkKeys secret t e = elim (Bool-cases (19 == secret + 7)) [
  | inl q ↦ let same : t ≡ reset_token env pat at = cc (rw q at e) in rw same refl
  | inr q ↦ absurd (cc (rw q at e))
]

abbrev reset_form : PasswordResetConfirmRequest
reset_form = record { token = 12; new_password = 77; totp_code = none }

confirm_password_reset_lem_example :
    let s' = (confirm_password_reset env reset_form 400 mailed).1 in
    (t : PasswordResetToken) × (user : User) × (proved : User) × (find_link env 12 mailed ≡ some t)
    × (is_redeemable 400 t ≡ true)
    × (get_user t.user_id mailed ≡ some user)
    × (second_factor env user none 400 ≡ ok proved)
    × (get_user user.id s' ≡ some (record proved { password_hash = env.hash_password 77 }))
    × (live_sessions user.id s'.tokens ≡ 0)
    × (confirm_password_reset env (record reset_form { new_password = 78 }) 500 s'
        ≡ (err invalid_link, s'))
unfolding confirm_password_reset confirm_checks redeem find_link find is_redeemable get_user
    second_factor second_factor_by reset_password
confirm_password_reset_lem_example =
    confirm_password_reset_lem env reset_form (record reset_form { new_password = 78 }) 400 500
      mailed _ mailed-HasLinkKeys refl refl
