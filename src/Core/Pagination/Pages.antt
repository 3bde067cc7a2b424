-- ===== src/Core/Pagination/Pages.antt =====
-- One page of ordered rows: what it holds, and what lies after its last row.
use native.Mathlib.Numerals.{add-one}
use new_builders_stream.Prelude.{
  ℕ, zero, suc, ◌+◌, ◌≤◌, ◌<◌, ◌≡◌, refl, ◌∙◌, ap, ◌⊎◌, inl, inr, ltb, Bool, true, false,
  Bool-cases, none, some, List, [], ◌∷◌, ◌++◌, length, All, arith,
}
use new_builders_stream.Prelude.Table.{select}
use new_builders_stream.Core.Cursor.{Codec, encode_cursor, Position}
use new_builders_stream.Core.Pagination.{before, take, get_last?, is_after, trim, page}
use new_builders_stream.Core.Pagination.Order.{IsSorted, before_irrefl, before_asym}

module _ {A : Type 0} where
  pub drop : ℕ → List A → List A
  drop zero xs = xs
  drop (suc n) [] = []
  drop (suc n) (x ∷ xs) = drop n xs

  take-append-drop : (n : ℕ) (xs : List A) → take n xs ++ drop n xs ≡ xs
  unfolding take drop
  take-append-drop zero xs = refl
  take-append-drop (suc n) [] = refl
  take-append-drop (suc n) (x ∷ xs) = ap (λ t. x ∷ t) (take-append-drop n xs)

  length-drop : (n : ℕ) (xs : List A) → length (drop n xs) ≤ length xs
  unfolding drop
  length-drop zero xs = omega arith
  length-drop (suc n) [] = omega arith
  length-drop (suc n) (x ∷ xs) = omega (arith, length-drop n xs)

  -- The extra row tells whether there are more, and is trimmed.
  more_rows : (n : ℕ) (xs : List A) → ltb n (length (take (suc n) xs)) ≡ ltb n (length xs)
  unfolding take
  more_rows n [] = refl
  more_rows zero (x ∷ xs) = ground arith
  more_rows (suc n) (x ∷ xs) = ground (arith, more_rows n xs)

  take-take : (n : ℕ) (xs : List A) → take n (take (suc n) xs) ≡ take n xs
  unfolding take
  take-take zero xs = refl
  take-take (suc n) [] = refl
  take-take (suc n) (x ∷ xs) = ap (λ t. x ∷ t) (take-take n xs)

  take_all : (n : ℕ) (xs : List A) → ltb n (length xs) ≡ false → take (suc n) xs ≡ xs
  unfolding take
  take_all n [] h = refl
  take_all zero (x ∷ xs) h = absurd (ground arith)
  take_all (suc n) (x ∷ xs) h = ap (λ t. x ∷ t) (take_all n xs (ground arith))

  select-All : (p : A → Bool) (xs : List A) → All (λ x. p x ≡ true) xs → select p xs ≡ xs
  unfolding select
  select-All p [] h = refl
  select-All p (x ∷ xs) h = rw (h.0, select-All p xs h.1)

module _ {A : Type 0} (key : A → Position) where
  -- The last row of a page, and the rows after its position.
  last_row :
      (P : A → Type 0) (m : ℕ) (x : A) (xs : List A)
      → IsSorted key (x ∷ xs)
      → All P (x ∷ xs)
      → (last : A) × (get_last? (take (suc m) (x ∷ xs)) ≡ some last)
        × (select (is_after key (key last)) (x ∷ xs) ≡ drop m xs)
        × P last
  unfolding take get_last? select is_after drop
  last_row P zero x xs s h =
      (x, refl, rw (before_irrefl (key x)) (select-All (λ y. before (key x) (key y)) xs s.0), h.0)
  last_row P (suc m) x [] s h = (x, refl, rw (before_irrefl (key x)), h.0)
  last_row P (suc m) x (y ∷ ys) s h =
      let (last, e, r, k) =
        last_row (λ z. P z × (before (key x) (key z) ≡ true)) m y ys s.1 (both (y ∷ ys) h.1 s.0) in
      (last, rw e, rw (before_asym (key x) (key last) k.1) r, k.0)
    where
      both :
          (zs : List A)
          → All P zs
          → All (λ z. before (key x) (key z) ≡ true) zs
          → All (λ z. P z × (before (key x) (key z) ≡ true)) zs
      both [] h k = tt
      both (z ∷ zs) h k = ((h.0, k.0), both zs h.1 k.1)

  module _ (codec : Codec) where
    trim_all :
        (limit : ℕ) (rows : List A)
        → ltb limit (length rows) ≡ false
        → trim key codec limit rows ≡ page rows none
    unfolding trim
    trim_all limit rows h = rw h

    whole_page :
        (limit : ℕ) (rows : List A)
        → ltb limit (length rows) ≡ false
        → trim key codec limit (take (limit + 1) rows) ≡ page rows none
    whole_page limit rows h = rw (add-one, take_all limit rows h) (trim_all limit rows h)

    trim_more :
        (limit : ℕ) (rows : List A) (last : A)
        → ltb limit (length rows) ≡ true
        → get_last? (take limit rows) ≡ some last
        → trim key codec limit rows ≡ page (take limit rows) (some (encode_cursor codec (key last)))
    unfolding trim
    trim_more limit rows last h l = rw (h, l)

    -- A page is all the rows, or a first part of them with the cursor of its last row.
    pub page_cases :
        (P : A → Type 0) (limit : ℕ) (rows : List A)
        → 0 < limit
        → IsSorted key rows
        → All P rows
        → (trim key codec limit (take (limit + 1) rows) ≡ page rows none)
          ⊎ ((last : A) × (first : List A) × (rest : List A) × (trim key codec limit
                  (take (limit + 1) rows)
                ≡ page first (some (encode_cursor codec (key last))))
              × (first ++ rest ≡ rows)
              × (select (is_after key (key last)) rows ≡ rest)
              × (length rest < length rows)
              × P last)
    unfolding drop
    page_cases P zero rows h s k = absurd (omega arith)
    page_cases P (suc m) [] h s k = inl (whole_page (suc m) [] (ground arith))
    page_cases P (suc m) (x ∷ xs) h s k = elim (Bool-cases (ltb (suc m) (length (x ∷ xs)))) [
      | inr e ↦ inl (whole_page (suc m) (x ∷ xs) e)
      | inl e ↦
          let (last, l, r, p) = last_row P m x xs s k in
          inr (
            last,
            take (suc m) (x ∷ xs),
            drop m xs,
            rw (add-one, ← take-take (suc m) (x ∷ xs))
                (trim_more (suc m) (take (suc (suc m)) (x ∷ xs)) last
                  (more_rows (suc m) (x ∷ xs) ∙ e) (ap get_last? (take-take (suc m) (x ∷ xs)) ∙ l)),
            take-append-drop (suc m) (x ∷ xs),
            r,
            omega (arith, length-drop m xs),
            p,
          )
    ]
