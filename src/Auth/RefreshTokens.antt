-- ===== src/Auth/RefreshTokens.antt =====
-- Refresh tokens: backend/app/services/refresh_tokens.py over backend/app/models/refresh_token.py.
-- The hash of a secret is a parameter; the secret that `secrets.token_urlsafe` draws and the clock
-- are arguments.
pub mod OneLive
pub mod Successor
use new_builders_stream.Prelude.{
  ℕ, ◌+◌, ◌*◌, Bool, true, false, ◌&&◌, ◌||◌, not, ◌==◌, leb, is_none, Option, some, none, List,
  ◌∷◌, if◌then◌else◌,
}
use new_builders_stream.Prelude.Table.{find, replace, update_where}

pub record RefreshToken : Type 0 where
  pub id : ℕ
  pub user_id : ℕ
  pub token_hash : ℕ
  pub family_id : ℕ
  pub active_company_id : Option ℕ
  pub expires_at : ℕ
  pub revoked_at : Option ℕ
  pub replaced_by_id : Option ℕ

-- The table, and the next identifier.
pub record Tokens : Type 0 where
  pub rows : List RefreshToken
  pub next_id : ℕ

-- RefreshTokenError and RefreshTokenReuseError.
pub data TokenError : Type 0 where
  unknown_token expired_token : TokenError
  reuse_detected : ℕ → ℕ → TokenError

-- The row that was presented, or the exception.
pub data Rotation : Type 0 where
  rotated : RefreshToken → Rotation
  refused : TokenError → Rotation

-- A revocation does not replace an earlier one.
unfoldable pub is_live : RefreshToken → Bool
is_live r = is_none r.revoked_at

abbrev pub revoked : ℕ → RefreshToken → RefreshToken
revoked now r = record r { revoked_at = some now }

unfoldable pub in_family : ℕ → RefreshToken → Bool
unfolding is_live
in_family family_id r = r.family_id == family_id && is_live r

unfoldable pub revoke_family : ℕ → ℕ → Tokens → Tokens
unfolding in_family
revoke_family family_id now s = record s {
  rows = update_where (in_family family_id) (revoked now) s.rows;
}

unfoldable pub revoke_all_for_user : ℕ → ℕ → Tokens → Tokens
unfolding is_live
revoke_all_for_user user_id now s = record s {
  rows = update_where (λ r. r.user_id == user_id && is_live r) (revoked now) s.rows;
}

-- `settings.refresh_token_expire_days`, in seconds, is an argument `lifetime`.
module _ (hash : ℕ → ℕ) (lifetime : ℕ) where
  -- The row of `mint_refresh_token`.
  abbrev pub minted : ℕ → ℕ → ℕ → ℕ → Option ℕ → ℕ → RefreshToken
  minted id secret user_id family_id active_company_id now = record {
    id = id;
    user_id = user_id;
    token_hash = hash secret;
    family_id = family_id;
    active_company_id = active_company_id;
    expires_at = now + lifetime;
    revoked_at = none;
    replaced_by_id = none;
  }

  -- `mint_refresh_token` in a family.
  unfoldable pub mint_refresh_token : ℕ → ℕ → ℕ → Option ℕ → ℕ → Tokens → Tokens
  mint_refresh_token secret user_id family_id active_company_id now s = record {
    rows = minted s.next_id secret user_id family_id active_company_id now ∷ s.rows;
    next_id = s.next_id + 1;
  }

  unfoldable pub find_by_secret : ℕ → Tokens → Option RefreshToken
  find_by_secret secret s = find (λ r. r.token_hash) (hash secret) s.rows

  -- A live row is replaced by a new one of its family.
  unfoldable pub replace_token : ℕ → Option ℕ → ℕ → RefreshToken → Tokens → Rotation × Tokens
  unfolding mint_refresh_token
  replace_token secret active_company_id now r s =
      let fresh = mint_refresh_token secret r.user_id r.family_id active_company_id now s in
      let old : RefreshToken = record r {
        revoked_at = some now;
        replaced_by_id = some s.next_id;
      } in
      (rotated old, record fresh { rows = replace (λ x. x.id) old fresh.rows })

  unfoldable pub was_used : RefreshToken → Bool
  was_used r = not (is_none r.revoked_at) || not (is_none r.replaced_by_id)

  unfoldable pub or_keep : Option (Option ℕ) → Option ℕ → Option ℕ
  or_keep none old = old
  or_keep (some company) old = company

  -- `rotate_refresh_token`; `active_company_id` is none for _UNSET.
  unfoldable pub rotate_refresh_token : ℕ → ℕ → Option (Option ℕ) → ℕ → Tokens → Rotation × Tokens
  unfolding find_by_secret was_used or_keep revoke_family replace_token
  rotate_refresh_token presented secret active_company_id now s =
      elim (find_by_secret presented s) [
        | none ↦ (refused unknown_token, s)
        | some r ↦
            if was_used r
            then (refused (reuse_detected r.user_id r.family_id), revoke_family r.family_id now s)
            else if leb r.expires_at now
            then (refused expired_token, s)
            else replace_token secret (or_keep active_company_id r.active_company_id) now r s
      ]
