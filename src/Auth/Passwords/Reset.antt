-- ===== src/Auth/Passwords/Reset.antt =====
-- A reset link works once, and only the newest one of a user does.
use mathlib.Core.Path.{subst}
use new_builders_stream.Prelude.{
  ℕ, ◌≡◌, ◌≢◌, refl, ap, sym, ◌∙◌, true, Bool-cases, Option-cases, inl, inr, Option, none, some,
  List, [], ◌∷◌, String, arith,
}
use new_builders_stream.Prelude.Table.{find, find_key, replace, count_where, update_where}
use new_builders_stream.Core.Exec.{Result, ok, err}
use new_builders_stream.Auth.Accounts.{
  User, PasswordResetToken, Accounts, Environment, get_user, find_by_email, log_action, or_raise,
}
use new_builders_stream.Auth.Accounts.Chains.{>>=-eq-ok, or_raise-eq-ok, committed-eq-ok}
use new_builders_stream.Auth.Sessions.{Moment}
use new_builders_stream.Auth.Passwords.{
  is_outstanding, spent, is_redeemable, first_company, invalid_link, PasswordResetConfirmRequest,
  reset_token, issue_to, issue_for_email, second_factor, redeem, find_link, confirm_checks,
  set_password, audit_reset, reset_password, confirm_password_reset,
}
use new_builders_stream.Auth.Passwords.Change.{
  live_sessions, second_factor-id, set_password-user, set_password-sessions,
}

-- The links of a user that could be redeemed, expired or not.
pub outstanding_links : ℕ → Accounts → ℕ
unfolding count_where is_outstanding
outstanding_links user_id s = count_where (is_outstanding user_id) s.password_reset_tokens

none_outstanding :
    (user_id now : ℕ) (rows : List PasswordResetToken)
    → count_where (is_outstanding user_id) (update_where (is_outstanding user_id) (spent now) rows)
      ≡ 0
unfolding count_where update_where is_outstanding
none_outstanding user_id now [] = refl
none_outstanding user_id now (t ∷ rows) = ground (arith, none_outstanding user_id now rows)

others_outstanding :
    (user_id other now : ℕ) (rows : List PasswordResetToken)
    → other ≢ user_id
    → count_where (is_outstanding other) (update_where (is_outstanding user_id) (spent now) rows)
      ≡ count_where (is_outstanding other) rows
unfolding count_where update_where is_outstanding
others_outstanding user_id other now [] h = refl
others_outstanding user_id other now (t ∷ rows) h =
    ground (arith, others_outstanding user_id other now rows h)

-- Writing the row of a link again changes what its hash finds to the new row.
find_link-replace :
    (t t' : PasswordResetToken) (h : ℕ) (rows : List PasswordResetToken)
    → find (λ x. x.token_hash) h rows ≡ some t
    → find (λ x. x.id) t'.id rows ≡ some t
    → t'.token_hash ≡ h
    → find (λ x. x.token_hash) h (replace (λ x. x.id) t' rows) ≡ some t'
unfolding find replace
find_link-replace t t' h [] by_hash by_id same = absurd (cc)
find_link-replace t t' h (x ∷ rows) by_hash by_id same = ground (
  arith,
  find_link-replace t t' h rows,
  find_key (λ x. x.id) t'.id t (x ∷ rows) by_id,
  find_key (λ x. x.token_hash) h t (x ∷ rows) by_hash,
)

module _ (env : Environment) where
  -- After a request for a known address the new link is the user's only outstanding one, it is found
  -- by its secret, and the outstanding links of the other users are as many as before.
  pub issue_for_email_lem :
      (email : String) (at : Moment) (user : User) (other : ℕ) (s : Accounts)
      → find_by_email email s.users ≡ some user
      → other ≢ user.id
      → let s' = (issue_for_email env email at s).1 in
        (outstanding_links user.id s' ≡ 1)
        × (find_link env at.secret s' ≡ some (reset_token env user at))
        × (outstanding_links other s' ≡ outstanding_links other s)
  unfolding issue_for_email issue_to find_link find outstanding_links
  issue_for_email_lem email at user other s known differ =
      rw (issue_for_email, known)
        (
          ground (arith, none_outstanding user.id at.now s.password_reset_tokens),
          ground arith,
          ground (arith, others_outstanding user.id other at.now s.password_reset_tokens differ),
        )

  audit_reset-keeps :
      (user_id : ℕ) (s : Accounts)
      → ((audit_reset env user_id s).users ≡ s.users)
        × ((audit_reset env user_id s).tokens ≡ s.tokens)
        × ((audit_reset env user_id s).password_reset_tokens ≡ s.password_reset_tokens)
  unfolding audit_reset log_action
  audit_reset-keeps user_id s =
      elim (Option-cases (first_company user_id (record s { company_users = [] }))) [
        | inl e ↦ rw (audit_reset, e) (refl, refl, refl)
        | inr (m, e) ↦ rw (audit_reset, e) (refl, refl, refl)
      ]

  redeem-eq-ok :
      (secret now : ℕ) (found : Option PasswordResetToken) {t : PasswordResetToken}
      → redeem env secret now found ≡ ok t
      → (found ≡ some t) × (is_redeemable now t ≡ true)
  unfolding redeem
  redeem-eq-ok secret now none h = absurd (cc)
  redeem-eq-ok secret now (some x) {t} h = elim (Bool-cases (is_redeemable now x)) [
    | inl e ↦
        let same : x ≡ t = cc (rw e at h) in
        (ap some same, subst (λ z. is_redeemable now z ≡ true) same e)
    | inr e ↦ absurd (cc (rw e at h))
  ]

  -- A link that finds a spent row is refused, whatever else the request holds.
  spent_refused :
      (payload : PasswordResetConfirmRequest) (t : PasswordResetToken) (used now : ℕ) (s : Accounts)
      → find_link env payload.token s ≡ some (spent used t)
      → confirm_password_reset env payload now s ≡ (err invalid_link, s)
  unfolding confirm_password_reset confirm_checks redeem is_redeemable
  spent_refused payload t used now s h = rw (confirm_password_reset, confirm_checks, h, redeem)

  abbrev after_reset :
      PasswordResetConfirmRequest → ℕ → Accounts → PasswordResetToken → User → Accounts
  after_reset payload now s t proved =
      audit_reset env proved.id (record (set_password env proved payload.new_password now s) {
        password_reset_tokens = replace (λ x. x.id) (spent now t) s.password_reset_tokens;
      })

  confirm-eq-ok :
      (payload : PasswordResetConfirmRequest) (now : ℕ) (s s' : Accounts)
      → confirm_password_reset env payload now s ≡ (ok tt, s')
      → (t : PasswordResetToken) × (user : User) × (proved : User) × (find_link env payload.token s
          ≡ some t)
        × (is_redeemable now t ≡ true)
        × (get_user t.user_id s ≡ some user)
        × (second_factor env user payload.totp_code now ≡ ok proved)
        × (s' ≡ after_reset payload now s t proved)
  unfolding confirm_password_reset confirm_checks reset_password
  confirm-eq-ok payload now s s' h =
      let ((t, proved), checks, written) =
        committed-eq-ok s (confirm_checks env payload now s) (reset_password env payload now s) h in
      let (t', found, a) =
        >>=-eq-ok (redeem env payload.token now (find_link env payload.token s)) _ checks in
      let (user, known, b) = >>=-eq-ok (or_raise invalid_link (get_user t'.user_id s)) _ a in
      let (proved', factor, c) = >>=-eq-ok (second_factor env user payload.totp_code now) _ b in
      let (at_hash, redeemable) = redeem-eq-ok payload.token now _ found in
      let same_t : t' ≡ t = cc c in
      let same_p : proved' ≡ proved = cc c in
      let tables = sym (ap (λ (x : Result (Unit {0}) × Accounts). x.1) written) in
      (
        t,
        user,
        proved,
        at_hash ∙ ap some same_t,
        subst (λ z. is_redeemable now z ≡ true) same_t redeemable,
        ap (λ (z : PasswordResetToken). get_user z.user_id s) (sym same_t)
            ∙ or_raise-eq-ok _ _ known,
        factor ∙ ap ok same_p,
        tables,
      )

  -- The link of a secret is the row of its identifier: both columns are unique.
  abbrev pub HasLinkKeys : Accounts → Type 0
  HasLinkKeys s =
      (secret : ℕ) (t : PasswordResetToken)
      → find_link env secret s ≡ some t
      → find (λ x. x.id) t.id s.password_reset_tokens ≡ some t

  found_user :
      (user_id : ℕ) (s : Accounts) {user : User}
      → get_user user_id s ≡ some user
      → get_user user.id s ≡ some user
  unfolding get_user
  found_user user_id s {user} known =
      ap (λ i. find (λ (u : User). u.id) i s.users)
        (find_key (λ u. u.id) user_id user s.users known)
      ∙ known

  reset_user :
      (payload : PasswordResetConfirmRequest) (now : ℕ) (s : Accounts) (t : PasswordResetToken)
      (user proved : User)
      → get_user user.id s ≡ some user
      → proved.id ≡ user.id
      → get_user user.id (after_reset payload now s t proved)
        ≡ some (record proved { password_hash = env.hash_password payload.new_password })
  unfolding get_user
  reset_user payload now s t user proved here same =
      ap (find (λ (u : User). u.id) user.id) ((audit_reset-keeps proved.id _).0)
      ∙ set_password-user env user proved payload.new_password now s here same

  reset_sessions :
      (payload : PasswordResetConfirmRequest) (now : ℕ) (s : Accounts) (t : PasswordResetToken)
      (user proved : User)
      → proved.id ≡ user.id
      → live_sessions user.id (after_reset payload now s t proved).tokens ≡ 0
  reset_sessions payload now s t user proved same =
      ap (live_sessions user.id) ((audit_reset-keeps proved.id _).1)
      ∙ set_password-sessions env user proved payload.new_password now s same

  reset_link :
      (payload : PasswordResetConfirmRequest) (now : ℕ) (s : Accounts) (t : PasswordResetToken)
      (proved : User)
      → HasLinkKeys s
      → find_link env payload.token s ≡ some t
      → find_link env payload.token (after_reset payload now s t proved) ≡ some (spent now t)
  unfolding find_link
  reset_link payload now s t proved keys found =
      ap (find (λ (x : PasswordResetToken). x.token_hash) (env.hash payload.token))
        ((audit_reset-keeps proved.id _).2)
      ∙ find_link-replace t (spent now t) (env.hash payload.token) s.password_reset_tokens found
          (keys payload.token t found)
          (find_key (λ x. x.token_hash) (env.hash payload.token) t s.password_reset_tokens found)

  -- When confirm_password_reset returns, the link was unused and in time and the second factor was
  -- passed if it is active; the user's row has the hash of the new password, no session of the user is
  -- live, and every later request with the same link is refused and writes nothing.
  pub confirm_password_reset_lem :
      (payload again : PasswordResetConfirmRequest) (now later : ℕ) (s s' : Accounts)
      → HasLinkKeys s
      → again.token ≡ payload.token
      → confirm_password_reset env payload now s ≡ (ok tt, s')
      → (t : PasswordResetToken) × (user : User) × (proved : User) × (find_link env payload.token s
          ≡ some t)
        × (is_redeemable now t ≡ true)
        × (get_user t.user_id s ≡ some user)
        × (second_factor env user payload.totp_code now ≡ ok proved)
        × (get_user user.id s'
            ≡ some (record proved { password_hash = env.hash_password payload.new_password }))
        × (live_sessions user.id s'.tokens ≡ 0)
        × (confirm_password_reset env again later s' ≡ (err invalid_link, s'))
  confirm_password_reset_lem payload again now later s s' keys same_link h =
      let (t, user, proved, found, good, known, factor, tables) =
        confirm-eq-ok payload now s s' h in
      let here = found_user t.user_id s known in
      let same = second_factor-id env user payload.totp_code now factor in
      (
        t,
        user,
        proved,
        found,
        good,
        known,
        factor,
        ap (get_user user.id) tables ∙ reset_user payload now s t user proved here same,
        ap (λ (z : Accounts). live_sessions user.id z.tokens) tables
            ∙ reset_sessions payload now s t user proved same,
        spent_refused again t now later s' (
            ap (λ k. find_link env k s') same_link
            ∙ (ap (find_link env payload.token) tables
                ∙ reset_link payload now s t proved keys found)),
      )
