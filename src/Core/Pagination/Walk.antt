-- ===== src/Core/Pagination/Walk.antt =====
-- A client that follows `next_cursor` from page to page.
use mathlib.Core.Option
use mathlib.Core.List.{Perm}
use new_builders_stream.Prelude.{
  ℕ, zero, suc, ◌+◌, ◌<◌, ◌≡◌, refl, sym, ◌∙◌, ap, inl, inr, Bool, true, Bool-cases, Option, none,
  some, List, [], ◌∷◌, ◌++◌, length, All, arith,
}
use new_builders_stream.Prelude.Table.{select}
use new_builders_stream.Core.Cursor.{Codec, Position, encode_cursor}
use new_builders_stream.Core.Cursor.RoundTrip.{IsFaithful, decode_cursor-encode_cursor}
use new_builders_stream.Core.Pagination.{
  PageResult, page, invalid_cursor, index_error, take, order_by, is_after, trim, fetch_page,
  page_from, paginate,
}
use new_builders_stream.Core.Pagination.Order.{
  IsSorted, HasKeys, before_trans, order_by-IsSorted, order_by-perm, length-order_by,
  select-order_by, IsSorted-select,
}
use new_builders_stream.Core.Pagination.Pages.{page_cases}

module _ {A : Type 0} where
  -- The rows of a page, and those of the following pages if there is a cursor.
  pub collect : PageResult A → (List ℕ → Option (List A)) → Option (List A)
  collect (page rows none) next = some rows
  collect (page rows (some cursor)) next = Option.map (λ more. rows ++ more) (next cursor)
  collect invalid_cursor next = none
  collect index_error next = none

  All-true : (p : A → Bool) (rows : List A) → All (λ x. p x ≡ true) (select p rows)
  unfolding select
  All-true p [] = tt
  All-true p (x ∷ rows) = elim (Bool-cases (p x)) [
    | inl e ↦ rw e (e, All-true p rows)
    | inr e ↦ rw e (All-true p rows)
  ]

  select-select :
      (p q : A → Bool) (rows : List A)
      → ((x : A) → q x ≡ true → p x ≡ true)
      → select q (select p rows) ≡ select q rows
  unfolding select
  select-select p q [] h = refl
  select-select p q (x ∷ rows) h = ground (arith, h x, select-select p q rows h)

module _ {A : Type 0} (key : A → Position) (codec : Codec) where
  -- At most `fuel` requests; none if they do not suffice or one of them fails.
  pub walk : ℕ → Option (List ℕ) → ℕ → List A → Option (List A)
  unfolding collect
  walk zero cursor limit rows = none
  walk (suc fuel) cursor limit rows =
      collect (paginate key codec cursor limit rows) (λ next. walk fuel (some next) limit rows)

  collect_page :
      (P : A → Type 0) (limit : ℕ) (rows : List A) (next : List ℕ → Option (List A))
      → 0 < limit
      → IsSorted key rows
      → All P rows
      → ((last : A)
          → P last
          → length (select (is_after key (key last)) rows) < length rows
          → next (encode_cursor codec (key last)) ≡ some (select (is_after key (key last)) rows))
      → collect (trim key codec limit (take (limit + 1) rows)) next ≡ some rows
  unfolding collect
  collect_page P limit rows next h s k follows = elim (page_cases key codec P limit rows h s k) [
    | inl e ↦ rw e
    | inr (last, first, rest, e, joined, after, shorter, p) ↦
        let here = follows last p (rw after shorter) in
        rw (e, collect, here, after) (ap some joined)
  ]

  first_page :
      (limit : ℕ) (rows : List A)
      → paginate key codec none limit rows
        ≡ trim key codec limit (take (limit + 1) (order_by key rows))
  unfolding paginate fetch_page
  first_page limit rows = refl

  is_after_trans :
      (p : Position) (last : A)
      → is_after key p last ≡ true
      → (x : A) → is_after key (key last) x ≡ true
      → is_after key p x ≡ true
  unfolding is_after
  is_after_trans p last h x k = before_trans p (key last) (key x) h k

  paginate_at :
      (p : Position) (limit : ℕ) (rows : List A)
      → IsFaithful codec
      → paginate key codec (some (encode_cursor codec p)) limit rows
        ≡ fetch_page key codec limit (select (is_after key p) rows)
  unfolding paginate page_from
  paginate_at p limit rows f =
      ap (page_from key codec limit rows) (decode_cursor-encode_cursor codec p f)

  page_after :
      (p : Position) (limit : ℕ) (rows : List A)
      → IsFaithful codec
      → HasKeys key rows
      → paginate key codec (some (encode_cursor codec p)) limit rows
        ≡ trim key codec limit (take (limit + 1) (select (is_after key p) (order_by key rows)))
  unfolding fetch_page
  page_after p limit rows f h =
      paginate_at p limit rows f
      ∙ ap (λ t. trim key codec limit (take (limit + 1) t))
          (sym (select-order_by key (is_after key p) rows h))

  walk_after :
      (fuel : ℕ) (p : Position) (limit : ℕ) (rows : List A)
      → IsFaithful codec
      → HasKeys key rows
      → 0 < limit
      → length (select (is_after key p) (order_by key rows)) < fuel
      → walk fuel (some (encode_cursor codec p)) limit rows
        ≡ some (select (is_after key p) (order_by key rows))
  unfolding walk
  walk_after zero p limit rows f h l enough = absurd (omega arith)
  walk_after (suc fuel) p limit rows f h l enough =
      let ordered = order_by key rows in
      rw (page_after p limit rows f h) (
        collect_page (λ x. is_after key p x ≡ true) limit (select (is_after key p) ordered) _ l
          (IsSorted-select key (is_after key p) ordered (order_by-IsSorted key rows h))
          (All-true (is_after key p) ordered)
          λ last later shorter.
            let same =
              select-select (is_after key p) (is_after key (key last)) ordered
                (is_after_trans p last later) in
            walk_after fuel (key last) limit rows f h l (omega (arith, ap length same))
            ∙ ap some (sym same))

  -- From the first page on, a client that follows the cursors gets every row of the query once, in
  -- the order of (created_at, id): for a limit of at least 1, rows with different identifiers, and
  -- one request more than there are rows, the walk ends, without an error.
  pub walk_lem :
      (limit fuel : ℕ) (rows : List A)
      → IsFaithful codec
      → HasKeys key rows
      → 0 < limit
      → length rows < fuel
      → (all : List A) × (walk fuel none limit rows ≡ some all) × IsSorted key all × Perm all rows
  unfolding walk
  walk_lem limit zero rows f h l enough = absurd (omega arith)
  walk_lem limit (suc fuel) rows f h l enough =
      let ordered = order_by key rows in
      (
        ordered,
        rw (first_page limit rows) (
            collect_page (λ _. Unit) limit ordered _ l (order_by-IsSorted key rows h)
              (trivial ordered)
              λ last _ shorter.
                walk_after fuel (key last) limit rows f h l
                  (omega (arith, length-order_by key rows))),
        order_by-IsSorted key rows h,
        order_by-perm key rows,
      )
    where
      trivial : (xs : List A) → All (λ _. Unit {0}) xs
      trivial [] = tt
      trivial (x ∷ xs) = (tt, trivial xs)
