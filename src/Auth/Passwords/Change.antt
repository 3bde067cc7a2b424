-- ===== src/Auth/Passwords/Change.antt =====
-- A change of the password or of the second factor by the user ends the sessions.
use new_builders_stream.Prelude.{
  ℕ, ◌≡◌, refl, ap, sym, ◌∙◌, Bool, true, false, Option, none, some, List, [], ◌∷◌, ◌==◌, ◌&&◌, not,
  is_none, arith,
}
use new_builders_stream.Prelude.Table.{find-replace, count_where, update_where}
use new_builders_stream.Core.Exec.{Result, ok}
use new_builders_stream.Auth.RefreshTokens.{
  RefreshToken, Tokens, is_live, revoke_all_for_user, revoked,
}
use new_builders_stream.Auth.Accounts.{
  User, Accounts, Environment, get_user, write_user, log_action, require,
}
use new_builders_stream.Auth.Accounts.Chains.{>>=-eq-ok, committed-eq-ok, require-eq-ok}
use new_builders_stream.Auth.Mfa.{Verification, verify_totp_code}
use new_builders_stream.Auth.Mfa.SingleUse.{verify_totp_code_lem}
use new_builders_stream.Auth.Sessions.Login.{after_verification-eq-ok}
use new_builders_stream.Auth.Passwords.{
  second_factor, second_factor_by, set_password, verify_current, change_checks, change_password,
  disable_checks, mfa_disable, without_mfa,
}

-- The live refresh tokens of a user.
pub live_sessions : ℕ → Tokens → ℕ
unfolding is_live count_where
live_sessions user_id s = count_where (λ r. r.user_id == user_id && is_live r) s.rows

none_live :
    (user_id now : ℕ) (rows : List RefreshToken)
    → count_where
        (λ r. r.user_id == user_id && is_live r)
        (update_where (λ r. r.user_id == user_id && is_live r) (revoked now) rows)
      ≡ 0
unfolding count_where update_where is_live
none_live user_id now [] = refl
none_live user_id now (r ∷ rows) = ground (arith, none_live user_id now rows)

pub live_sessions-revoke :
    (user_id now : ℕ) (s : Tokens) → live_sessions user_id (revoke_all_for_user user_id now s) ≡ 0
unfolding live_sessions revoke_all_for_user
live_sessions-revoke user_id now s = none_live user_id now s.rows

module _ (env : Environment) where
  -- The second factor keeps who the user is and whether it is active.
  second_factor_by-eq-ok :
      (activated : Option ℕ) (user : User) (code : Option ℕ) (now : ℕ) {proved : User}
      → second_factor_by env activated user code now ≡ ok proved
      → proved.id ≡ user.id
  unfolding second_factor_by
  second_factor_by-eq-ok none user code now h = cc
  second_factor_by-eq-ok (some t) user none now h = absurd (cc)
  second_factor_by-eq-ok (some t) user (some code) now {proved} h =
      let v = after_verification-eq-ok (verify_totp_code env user code now) h in
      let (_, _, _, _, _, _, _, c, _) = verify_totp_code_lem env user proved code now v in
      ap (λ (u : User). u.id) c

  pub second_factor-id :
      (user : User) (code : Option ℕ) (now : ℕ) {proved : User}
      → second_factor env user code now ≡ ok proved
      → proved.id ≡ user.id
  unfolding second_factor
  second_factor-id user code now h = second_factor_by-eq-ok user.mfa_activated_at user code now h

  -- Writing a user's row again makes it the row that is found.
  pub get_user-write_user :
      (user changed : User) (s : Accounts)
      → get_user user.id s ≡ some user
      → changed.id ≡ user.id
      → get_user user.id (write_user changed s) ≡ some changed
  unfolding get_user
  get_user-write_user user changed s here same =
      find-replace (λ u. u.id) changed user user.id s.users (rw same here) ∙ ground (arith, same)

  pub set_password-user :
      (user proved : User) (new_password now : ℕ) (s : Accounts)
      → get_user user.id s ≡ some user
      → proved.id ≡ user.id
      → get_user user.id (set_password env proved new_password now s)
        ≡ some (record proved { password_hash = env.hash_password new_password })
  unfolding set_password get_user
  set_password-user user proved new_password now s here same =
      get_user-write_user user (record proved { password_hash = env.hash_password new_password }) s
        here same

  pub set_password-sessions :
      (user proved : User) (new_password now : ℕ) (s : Accounts)
      → proved.id ≡ user.id
      → live_sessions user.id (set_password env proved new_password now s).tokens ≡ 0
  unfolding set_password
  set_password-sessions user proved new_password now s same =
      rw (← same) (live_sessions-revoke proved.id now s.tokens)

  -- When change_password returns, the present password was verified and the second factor passed if
  -- it is active; the user's row has the hash of the new password, and no session of the user is live.
  pub change_password_lem :
      (user : User) (company_id current_password new_password : ℕ) (code : Option ℕ) (now : ℕ)
      (s s' : Accounts)
      → get_user user.id s ≡ some user
      → change_password env user company_id current_password new_password code now s ≡ (ok tt, s')
      → (proved : User) × (env.verify_password current_password user.password_hash ≡ true)
        × (second_factor env user code now ≡ ok proved)
        × (get_user user.id s'
            ≡ some (record proved { password_hash = env.hash_password new_password }))
        × (live_sessions user.id s'.tokens ≡ 0)
  unfolding change_password change_checks verify_current log_action get_user
  change_password_lem user company_id current_password new_password code now s s' here h =
      let (proved, checks, written) =
        committed-eq-ok s (change_checks env user current_password code now) _ h in
      let (_, a, factor) = >>=-eq-ok (verify_current env user current_password) _ checks in
      let tables = sym (ap (λ (t : Result (Unit {0}) × Accounts). t.1) written) in
      let same = second_factor-id user code now factor in
      (
        proved,
        require-eq-ok _ _ a,
        factor,
        rw tables (set_password-user user proved new_password now s here same),
        rw tables (set_password-sessions user proved new_password now s same),
      )

  verified-id :
      (user : User) (code now : ℕ) {proved : User}
      → verify_totp_code env user code now ≡ Verification.accepted proved
      → proved.id ≡ user.id
  verified-id user code now {proved} v =
      let (_, _, _, _, _, _, _, c, _) = verify_totp_code_lem env user proved code now v in
      ap (λ (u : User). u.id) c

  -- When mfa_disable returns, the second factor was active and both factors were shown; the user's
  -- row has neither a secret nor an activation, and no session of the user is live.
  pub mfa_disable_lem :
      (user : User) (company_id current_password code now : ℕ) (s s' : Accounts)
      → get_user user.id s ≡ some user
      → mfa_disable env user company_id current_password code now s ≡ (ok tt, s')
      → (proved : User) × (is_none user.mfa_activated_at ≡ false)
        × (env.verify_password current_password user.password_hash ≡ true)
        × (verify_totp_code env user code now ≡ Verification.accepted proved)
        × (get_user user.id s' ≡ some (without_mfa env proved))
        × (live_sessions user.id s'.tokens ≡ 0)
  unfolding mfa_disable disable_checks verify_current log_action get_user
  mfa_disable_lem user company_id current_password code now s s' here h =
      let (proved, checks, written) =
        committed-eq-ok s (disable_checks env user current_password code now) _ h in
      let (_, active, rest) =
        >>=-eq-ok (require (not (is_none user.mfa_activated_at)) _) _ checks in
      let (_, a, factor) = >>=-eq-ok (verify_current env user current_password) _ rest in
      let tables = sym (ap (λ (t : Result (Unit {0}) × Accounts). t.1) written) in
      let v = after_verification-eq-ok (verify_totp_code env user code now) factor in
      let same = verified-id user code now v in
      (
        proved,
        is_active (is_none user.mfa_activated_at) (require-eq-ok _ _ active),
        require-eq-ok _ _ a,
        v,
        rw tables (get_user-write_user user (without_mfa env proved) s here same),
        rw tables (rw (← same) (live_sessions-revoke proved.id now s.tokens)),
      )
    where
      is_active : (b : Bool) → not b ≡ true → b ≡ false
      is_active true h = cc
      is_active false h = refl
