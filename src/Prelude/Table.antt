-- ===== src/Prelude/Table.antt =====
-- A table of rows with a primary key: a list of rows, an insert in front of the others.
use Prim.Native.Nat.{ℕ, ◌+◌}
use mathlib.Core.Path.{◌≡◌, refl}
use mathlib.Core.Bool.{Bool}
use mathlib.Core.Option
use mathlib.Core.Option.{Option, none, some}
use mathlib.Core.List.{List, [], ◌∷◌}
use native.Mathlib.Omega.{arith}
use new_builders_stream.Prelude.Tests.{◌==◌, if◌then◌else◌}
use new_builders_stream.Prelude.Int.{ℤ, pos, ◌+ℤ◌}

module _ {ℓ} {A : Type ℓ} where
  -- SELECT … WHERE key = i: the row of a primary key.
  unfoldable pub find : (A → ℕ) → ℕ → List A → Option A
  find key i [] = none
  find key i (r ∷ rows) = if key r == i then some r else find key i rows

  -- UPDATE … WHERE key = (the row's own key): what a flush of a changed row writes.
  unfoldable pub replace : (A → ℕ) → A → List A → List A
  replace key r [] = []
  replace key r (x ∷ rows) = if key x == key r then r ∷ rows else x ∷ replace key r rows

  -- SELECT coalesce(sum(value), 0) WHERE p.
  unfoldable pub sum_where : (A → Bool) → (A → ℤ) → List A → ℤ
  sum_where p value [] = pos 0
  sum_where p value (r ∷ rows) =
      if p r then value r +ℤ sum_where p value rows else sum_where p value rows

  -- SELECT count(*) WHERE p.
  unfoldable pub count_where : (A → Bool) → List A → ℕ
  count_where p [] = 0
  count_where p (r ∷ rows) = if p r then count_where p rows + 1 else count_where p rows

  -- SELECT … WHERE p, in the table's order.
  unfoldable pub select : (A → Bool) → List A → List A
  select p [] = []
  select p (r ∷ rows) = if p r then r ∷ select p rows else select p rows

  -- UPDATE … SET … WHERE p, in one statement.
  unfoldable pub update_where : (A → Bool) → (A → A) → List A → List A
  update_where p set [] = []
  update_where p set (r ∷ rows) = (if p r then set r else r) ∷ update_where p set rows

  pub find-replace :
      (key : A → ℕ) (r old : A) (i : ℕ) (rows : List A)
      → find key (key r) rows ≡ some old
      → find key i (replace key r rows) ≡ (if key r == i then some r else find key i rows)
  unfolding find replace
  find-replace key r old i [] h = cc
  find-replace key r old i (x ∷ rows) h = ground (arith, find-replace key r old i rows)

  pub find_key :
      (key : A → ℕ) (i : ℕ) (r : A) (rows : List A) → find key i rows ≡ some r → key r ≡ i
  unfolding find
  find_key key i r [] h = cc
  find_key key i r (x ∷ rows) h = ground (arith, find_key key i r rows)

  -- A row that is written under its own key is found there.
  pub find-replace_own :
      (key : A → ℕ) (r old : A) (i : ℕ) (rows : List A)
      → find key i rows ≡ some old
      → key r ≡ key old
      → find key i (replace key r rows) ≡ some r
  unfolding find replace
  find-replace_own key r old i [] h same = absurd (cc)
  find-replace_own key r old i (x ∷ rows) h same =
      ground (arith, find_key key i old (x ∷ rows) h, find-replace_own key r old i rows)

  pub find-cons :
      (key : A → ℕ) (i : ℕ) (r : A) (rows : List A)
      → find key i (r ∷ rows) ≡ (if key r == i then some r else find key i rows)
  unfolding find
  find-cons key i r rows = refl

  -- An UPDATE that keeps the keys is seen by a lookup as the update of the row found.
  pub find-update_where :
      (key : A → ℕ) (p : A → Bool) (set : A → A) (i : ℕ) (rows : List A)
      → ((x : A) → key (set x) ≡ key x)
      → find key i (update_where p set rows)
        ≡ Option.map (λ x. if p x then set x else x) (find key i rows)
  unfolding find update_where
  find-update_where key p set i [] keeps = refl
  find-update_where key p set i (x ∷ rows) keeps =
      ground (arith, keeps x, find-update_where key p set i rows keeps)
