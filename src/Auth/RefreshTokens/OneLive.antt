-- ===== src/Auth/RefreshTokens/OneLive.antt =====
-- Live tokens and families of backend/app/services/refresh_tokens.py.
use new_builders_stream.Prelude.{
  ℕ, ◌+◌, ◌<◌, ◌≤◌, ◌≡◌, ◌≢◌, refl, sym, ap, ◌∙◌, true, false, ◌==◌, leb, Option, some, none, List,
  [], ◌∷◌, if◌then◌else◌, arith, All, Bool-cases, Option-cases, inl, inr,
}
use mathlib.Core.Path.{subst}
use new_builders_stream.Prelude.Table.{find, replace, update_where, count_where, find_key}
use new_builders_stream.Auth.RefreshTokens.{
  RefreshToken, Tokens, is_live, in_family, revoked, revoke_family, or_keep, unknown_token,
  expired_token, minted, mint_refresh_token, find_by_secret, replace_token, was_used,
  rotate_refresh_token, refused, reuse_detected,
}

-- How many live tokens the family has.
pub live_count : ℕ → List RefreshToken → ℕ
unfolding count_where in_family
live_count f rows = count_where (in_family f) rows

live_count-revoke :
    (f now : ℕ) (rows : List RefreshToken)
    → live_count f (update_where (in_family f) (revoked now) rows) ≡ 0
unfolding live_count update_where
live_count-revoke f now [] = refl
live_count-revoke f now (r ∷ rows) = ground (arith, live_count-revoke f now rows)

live_count-other :
    (f g now : ℕ) (rows : List RefreshToken)
    → live_count g (update_where (in_family f) (revoked now) rows) ≤ live_count g rows
unfolding live_count update_where
live_count-other f g now [] = omega arith
live_count-other f g now (r ∷ rows) = ground (arith, live_count-other f g now rows)

-- A token of the family g that is revoked in place: one less if it was live.
live_count-replace :
    (g : ℕ) (old new_row : RefreshToken) (rows : List RefreshToken)
    → find (λ r. r.id) new_row.id rows ≡ some old
    → in_family g new_row ≡ false
    → live_count g (replace (λ r. r.id) new_row rows) + (if in_family g old then 1 else 0)
      ≡ live_count g rows
unfolding live_count find replace
live_count-replace g old new_row [] h e = absurd (cc)
live_count-replace g old new_row (r ∷ rows) h e =
    ground (arith, live_count-replace g old new_row rows)

-- A row found by its hash is the row of its identifier; identifiers and hashes are unique columns, and
-- every row was inserted before the next identifier.
pub record Keyed (s : Tokens) : Type 0 where
  pub by_hash :
      (h : ℕ) (r : RefreshToken)
      → find (λ x. x.token_hash) h s.rows ≡ some r
      → find (λ x. x.id) r.id s.rows ≡ some r
  pub old_ids : All (λ r. r.id < s.next_id) s.rows

pub find_old :
    (n i : ℕ) (r : RefreshToken) (rows : List RefreshToken)
    → All (λ x. x.id < n) rows
    → find (λ x. x.id) i rows ≡ some r
    → r.id < n
unfolding find
find_old n i r [] h e = absurd (cc)
find_old n i r (x ∷ rows) h e = ground (arith, h.0, find_old n i r rows h.1)

-- Writing a row again, with its own hash, changes what is found under that hash only.
find_hash-replace :
    (new_row old : RefreshToken) (h : ℕ) (rows : List RefreshToken)
    → find (λ x. x.id) new_row.id rows ≡ some old
    → find (λ x. x.token_hash) new_row.token_hash rows ≡ some old
    → find (λ x. x.token_hash) h (replace (λ x. x.id) new_row rows)
      ≡ (if new_row.token_hash == h then some new_row else find (λ x. x.token_hash) h rows)
unfolding find replace
find_hash-replace new_row old h [] by_id by_hash = absurd (cc)
find_hash-replace new_row old h (x ∷ rows) by_id by_hash =
    let ik : old.id ≡ new_row.id = find_key (λ x. x.id) new_row.id old (x ∷ rows) by_id in
    let hk : old.token_hash ≡ new_row.token_hash =
      find_key (λ x. x.token_hash) new_row.token_hash old (x ∷ rows) by_hash in
    elim (Bool-cases (x.id == new_row.id)) [
      | inl e ↦
          let same : x ≡ old = cc (rw e at by_id) in
          let key : x.token_hash ≡ new_row.token_hash =
            ap (λ (r : RefreshToken). r.token_hash) same ∙ hk in
          rw e (written key)
      | inr e ↦ elim (Bool-cases (x.token_hash == new_row.token_hash)) [
        | inl q ↦
            let same : x ≡ old = cc (rw q at by_hash) in
            let key : x.id ≡ new_row.id = ap (λ (r : RefreshToken). r.id) same ∙ ik in
            absurd (ground arith)
        | inr q ↦
            let rest = find_hash-replace new_row old h rows (rw e at by_id) (rw q at by_hash) in
            rw e (rw rest (swap _ q))
      ]
    ]
  where
    written :
        x.token_hash ≡ new_row.token_hash
        → (if new_row.token_hash == h then some new_row else find (λ x. x.token_hash) h rows) ≡ (
            if new_row.token_hash == h
            then some new_row
            else if x.token_hash == h
            then some x
            else find (λ x. x.token_hash) h rows)
    written key = ground arith

    swap :
        (o : Option RefreshToken)
        → (x.token_hash == new_row.token_hash) ≡ false
        → (if x.token_hash == h
            then some x
            else if new_row.token_hash == h
            then some new_row
            else o)
          ≡ (if new_row.token_hash == h
              then some new_row
              else if x.token_hash == h
              then some x
              else o)
    swap o q = ground arith

behind :
    (fresh r : RefreshToken) (rows : List RefreshToken)
    → r.id < fresh.id
    → find (λ x. x.id) r.id rows ≡ some r
    → find (λ x. x.id) r.id (fresh ∷ rows) ≡ some r
unfolding find
behind fresh r rows older found = ground arith

behind_hash :
    (fresh r : RefreshToken) (h : ℕ) (rows : List RefreshToken)
    → r.token_hash ≡ h
    → fresh.token_hash ≢ h
    → find (λ x. x.token_hash) h rows ≡ some r
    → find (λ x. x.token_hash) r.token_hash (fresh ∷ rows) ≡ some r
unfolding find
behind_hash fresh r h rows key other found =
    subst (λ t. find (λ x. x.token_hash) t (fresh ∷ rows) ≡ some r) (sym key)
      (skipped (ground (arith, other)))
  where
    skipped :
        (fresh.token_hash == h) ≡ false
        → (if fresh.token_hash == h then some fresh else find (λ x. x.token_hash) h rows) ≡ some r
    skipped e = rw e found

chosen :
    (old : RefreshToken) (h : ℕ) (o : Option RefreshToken)
    → old.token_hash ≡ h
    → (if old.token_hash == h then some old else o) ≡ some old
chosen old h o key = ground arith

dead :
    (g now n : ℕ) (r : RefreshToken)
    → in_family g (record r { revoked_at = some now; replaced_by_id = some n }) ≡ false
unfolding in_family is_live
dead g now n r = ground arith

-- The new row counts where the old one did.
count_of_swap :
    (g now n : ℕ) (r fresh : RefreshToken) (rows : List RefreshToken) {c : ℕ}
    → is_live r ≡ true
    → fresh.family_id ≡ r.family_id
    → fresh.revoked_at ≡ none
    → c + (if in_family g r then 1 else 0) ≡ live_count g (fresh ∷ rows)
    → c ≡ live_count g rows
unfolding live_count in_family is_live count_where
count_of_swap g now n r fresh rows live family open_row h = ground arith

module _ (hash : ℕ → ℕ) (lifetime : ℕ) where
  replace_token-live :
      (secret now g : ℕ) (company : Option ℕ) (r : RefreshToken) (s : Tokens)
      → Keyed s
      → find (λ x. x.id) r.id s.rows ≡ some r
      → is_live r ≡ true
      → live_count g (replace_token hash lifetime secret company now r s).1.rows
        ≡ live_count g s.rows
  unfolding replace_token mint_refresh_token
  replace_token-live secret now g company r s k found live =
      let old : RefreshToken = record r {
        revoked_at = some now;
        replaced_by_id = some s.next_id;
      } in
      let fresh = minted hash lifetime s.next_id secret r.user_id r.family_id company now in
      let here : find (λ x. x.id) r.id (fresh ∷ s.rows) ≡ some r =
        behind fresh r s.rows (find_old s.next_id r.id r s.rows k.old_ids found) found in
      count_of_swap g now s.next_id r fresh s.rows live refl refl
        (live_count-replace g r old (fresh ∷ s.rows) here (dead g now s.next_id r))

  -- After a rotation the presented token is found again, as its replaced row.
  found_again :
      (presented secret now : ℕ) (company : Option ℕ) (r : RefreshToken) (s : Tokens)
      → Keyed s
      → find_by_secret hash lifetime presented s ≡ some r
      → hash secret ≢ hash presented
      → find_by_secret hash lifetime presented
          (replace_token hash lifetime secret company now r s).1
        ≡ some (record r { revoked_at = some now; replaced_by_id = some s.next_id })
  unfolding find_by_secret replace_token mint_refresh_token
  found_again presented secret now company r s k found other =
      let old : RefreshToken = record r {
        revoked_at = some now;
        replaced_by_id = some s.next_id;
      } in
      let fresh = minted hash lifetime s.next_id secret r.user_id r.family_id company now in
      let key : r.token_hash ≡ hash presented =
        find_key (λ x. x.token_hash) (hash presented) r s.rows found in
      let by_id = k.by_hash (hash presented) r found in
      find_hash-replace old r (hash presented) (fresh ∷ s.rows)
        (behind fresh r s.rows (find_old s.next_id r.id r s.rows k.old_ids by_id) by_id)
        (behind_hash fresh r (hash presented) s.rows key other found)
      ∙ chosen old (hash presented) _ key

  used_now :
      (r : RefreshToken) (now n : ℕ)
      → was_used hash lifetime (record r { revoked_at = some now; replaced_by_id = some n }) ≡ true
  unfolding was_used
  used_now r now n = refl

  not_used_live : (r : RefreshToken) → was_used hash lifetime r ≡ false → is_live r ≡ true
  unfolding was_used is_live
  not_used_live r h = ground arith

  module _ (presented secret now : ℕ) (company : Option (Option ℕ)) (s : Tokens) where
    rotate-missing :
        find_by_secret hash lifetime presented s ≡ none
        → rotate_refresh_token hash lifetime presented secret company now s
          ≡ (refused unknown_token, s)
    unfolding rotate_refresh_token find_by_secret
    rotate-missing missing = rw (rotate_refresh_token, missing)

    rotate-used :
        (r : RefreshToken)
        → find_by_secret hash lifetime presented s ≡ some r
        → was_used hash lifetime r ≡ true
        → rotate_refresh_token hash lifetime presented secret company now s
          ≡ (refused (reuse_detected r.user_id r.family_id), revoke_family r.family_id now s)
    unfolding rotate_refresh_token find_by_secret
    rotate-used r found used = rw (rotate_refresh_token, found, used)

    rotate-expired :
        (r : RefreshToken)
        → find_by_secret hash lifetime presented s ≡ some r
        → was_used hash lifetime r ≡ false
        → leb r.expires_at now ≡ true
        → rotate_refresh_token hash lifetime presented secret company now s
          ≡ (refused expired_token, s)
    unfolding rotate_refresh_token find_by_secret
    rotate-expired r found fresh expired = rw (rotate_refresh_token, found, fresh, expired)

    pub rotate-good :
        (r : RefreshToken)
        → find_by_secret hash lifetime presented s ≡ some r
        → was_used hash lifetime r ≡ false
        → leb r.expires_at now ≡ false
        → rotate_refresh_token hash lifetime presented secret company now s
          ≡ replace_token hash lifetime secret
              (or_keep hash lifetime company r.active_company_id)
              now
              r
              s
    unfolding rotate_refresh_token find_by_secret
    rotate-good r found fresh good = rw (rotate_refresh_token, found, fresh, good)

  -- Over a keyed table, rotation never leaves more live tokens in a family than there were, in the family of the token
  -- that is presented and in every other, whether the token is unknown, used, expired or good.
  pub rotate_refresh_token-live :
      (presented secret now g : ℕ) (company : Option (Option ℕ)) (s : Tokens)
      → Keyed s
      → live_count g (rotate_refresh_token hash lifetime presented secret company now s).1.rows
        ≤ live_count g s.rows
  unfolding find_by_secret revoke_family
  rotate_refresh_token-live presented secret now g company s k =
      elim (Option-cases (find (λ r. r.token_hash) (hash presented) s.rows)) [
        | inl missing ↦ rw (rotate-missing presented secret now company s missing) (omega arith)
        | inr (r, found) ↦ elim (Bool-cases (was_used hash lifetime r)) [
          | inl used ↦
              rw (rotate-used presented secret now company s r found used)
                (live_count-other r.family_id g now s.rows)
          | inr fresh ↦ elim (Bool-cases (leb r.expires_at now)) [
            | inl expired ↦
                rw (rotate-expired presented secret now company s r found fresh expired)
                  (omega arith)
            | inr good ↦ rw (rotate-good presented secret now company s r found fresh good) (
                omega (
                  arith,
                  replace_token-live secret now g _ r s k (k.by_hash (hash presented) r found)
                      (not_used_live r fresh),
                ))
          ]
        ]
      ]

  -- A token that was revoked or replaced is refused as reused, and no token of its family stays live.
  pub reuse_ends_family :
      (presented secret now : ℕ) (company : Option (Option ℕ)) (r : RefreshToken) (s : Tokens)
      → find_by_secret hash lifetime presented s ≡ some r
      → was_used hash lifetime r ≡ true
      → let (result, s') = rotate_refresh_token hash lifetime presented secret company now s in
        (result ≡ refused (reuse_detected r.user_id r.family_id))
        × (live_count r.family_id s'.rows ≡ 0)
  unfolding revoke_family
  reuse_ends_family presented secret now company r s found used =
      rw (rotate-used presented secret now company s r found used)
        (refl, live_count-revoke r.family_id now s.rows)

  -- A token is good for one rotation: after one that succeeded and drew a secret with another hash,
  -- over a keyed table, presenting the same token again is refused as reuse, and leaves its family without a live token.
  pub rotates_once :
      (presented secret again now later : ℕ) (company company' : Option (Option ℕ))
      (r : RefreshToken) (s : Tokens)
      → Keyed s
      → find_by_secret hash lifetime presented s ≡ some r
      → was_used hash lifetime r ≡ false
      → leb r.expires_at now ≡ false
      → hash secret ≢ hash presented
      → let s1 = (rotate_refresh_token hash lifetime presented secret company now s).1 in
        let (result, s2) = rotate_refresh_token hash lifetime presented again company' later s1 in
        (result ≡ refused (reuse_detected r.user_id r.family_id))
        × (live_count r.family_id s2.rows ≡ 0)
  rotates_once presented secret again now later company company' r s k found fresh good other =
      rw (rotate-good presented secret now company s r found fresh good) (
        reuse_ends_family presented again later company'
          (record r { revoked_at = some now; replaced_by_id = some s.next_id })
          (replace_token hash lifetime secret (or_keep hash lifetime company r.active_company_id)
            now r s).1
          (found_again presented secret now _ r s k found other) (used_now r now s.next_id))
