-- ===== src/Tests/AuthRuns.antt =====
-- Refresh tokens at concrete data.
use new_builders_stream.Prelude.{
  ℕ, ◌+◌, ◌≤◌, ◌≡◌, refl, none, some, [], ◌∷◌, arith, ◌==◌, Bool-cases, inl, inr,
}
use new_builders_stream.Prelude.Table.{find}
use new_builders_stream.Auth.RefreshTokens.{
  RefreshToken, Tokens, minted, find_by_secret, was_used, rotate_refresh_token, refused,
  reuse_detected,
}
use new_builders_stream.Auth.RefreshTokens.OneLive.{
  Keyed, live_count, rotate_refresh_token-live, rotates_once,
}

-- A hash without collisions.
abbrev plus_seven : ℕ → ℕ
plus_seven secret = secret + 7

-- A token of user 3 in the family 50, drawn at 100 with a lifetime of 1000.
abbrev token : RefreshToken
token = minted plus_seven 1000 1 11 3 50 none 100

abbrev table : Tokens
table = record { rows = token ∷ []; next_id = 2 }

table-Keyed : Keyed table
unfolding find
table-Keyed = record { by_hash = only; old_ids = (omega arith, tt) }
  where
    only :
        (h : ℕ) (r : RefreshToken)
        → find (λ x. x.token_hash) h table.rows ≡ some r
        → find (λ x. x.id) r.id table.rows ≡ some r
    only h r e = elim (Bool-cases (18 == h)) [
      | inl q ↦ let same : r ≡ token = cc (rw q at e) in rw same refl
      | inr q ↦ absurd (cc (rw q at e))
    ]

rotate_refresh_token-live_example :
    live_count 50 (rotate_refresh_token plus_seven 1000 11 12 none 200 table).1.rows
    ≤ live_count 50 table.rows
rotate_refresh_token-live_example =
    rotate_refresh_token-live plus_seven 1000 11 12 200 50 none table table-Keyed

rotates_once_example :
    let s1 = (rotate_refresh_token plus_seven 1000 11 12 none 200 table).1 in
    let (result, s2) = rotate_refresh_token plus_seven 1000 11 13 none 300 s1 in
    (result ≡ refused (reuse_detected 3 50)) × (live_count 50 s2.rows ≡ 0)
unfolding find_by_secret was_used find
rotates_once_example =
    rotates_once plus_seven 1000 11 12 13 200 300 none none token table table-Keyed refl refl refl
      (λ h. absurd (omega (arith, h)))
