-- ===== src/Auth/RefreshTokens/Successor.antt =====
-- The token that a rotation hands out, and what rotating it gives.
use new_builders_stream.Prelude.{ℕ, ◌+◌, ◌<◌, ◌≡◌, refl, false, Option, none, some, leb, arith}
use new_builders_stream.Prelude.Table.{find, replace}
use new_builders_stream.Auth.RefreshTokens.{
  RefreshToken, Tokens, rotated, minted, find_by_secret, replace_token, was_used, or_keep,
  rotate_refresh_token,
}
use new_builders_stream.Auth.RefreshTokens.OneLive.{rotate-good}

module _ (hash : ℕ → ℕ) (lifetime : ℕ) where
  -- The new row stands in front, and the row that is marked has another identifier.
  pub find-replace_token :
      (secret now : ℕ) (company : Option ℕ) (r : RefreshToken) (s : Tokens)
      → r.id < s.next_id
      → find_by_secret hash lifetime secret (replace_token hash lifetime secret company now r s).1
        ≡ some (minted hash lifetime s.next_id secret r.user_id r.family_id company now)
  unfolding find_by_secret replace_token find replace
  find-replace_token secret now company r s older = ground arith

  module _ (presented secret now : ℕ) (company : Option (Option ℕ)) (r : RefreshToken)
      (s : Tokens) where
    -- A token that is neither used nor expired is rotated: it is marked, and nothing else changes but
    -- the row of its successor.
    pub rotates :
        find_by_secret hash lifetime presented s ≡ some r
        → was_used hash lifetime r ≡ false
        → leb r.expires_at now ≡ false
        → rotate_refresh_token hash lifetime presented secret company now s ≡ (
          rotated (record r { revoked_at = some now; replaced_by_id = some s.next_id }),
          (replace_token hash lifetime secret
              (or_keep hash lifetime company r.active_company_id)
              now
              r
              s).1,
        )
    unfolding replace_token
    rotates found fresh good =
        rotate-good hash lifetime presented secret now company s r found fresh good

  fresh_unused :
      (id secret user_id family_id now : ℕ) (company : Option ℕ)
      → was_used hash lifetime (minted hash lifetime id secret user_id family_id company now)
        ≡ false
  unfolding was_used
  fresh_unused id secret user_id family_id now company = refl

  -- The successor is rotated in turn, for the same user and the same company.
  pub successor_rotates :
      (secret again now later : ℕ) (company : Option ℕ) (r : RefreshToken) (s : Tokens)
      → r.id < s.next_id
      → later < now + lifetime
      → let s1 = (replace_token hash lifetime secret company now r s).1 in
        let fresh = minted hash lifetime s.next_id secret r.user_id r.family_id company now in
        rotate_refresh_token hash lifetime secret again none later s1 ≡ (
          rotated (record fresh { revoked_at = some later; replaced_by_id = some s1.next_id }),
          (replace_token hash lifetime again company later fresh s1).1,
        )
  unfolding or_keep
  successor_rotates secret again now later company r s older alive =
      rotates secret again later none _ _ (find-replace_token secret now company r s older)
        (fresh_unused s.next_id secret r.user_id r.family_id now company) (ground arith)
