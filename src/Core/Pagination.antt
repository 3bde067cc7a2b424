-- ===== src/Core/Pagination.antt =====
-- backend/app/core/pagination.py: `paginate`, over the rows that a query selects.
pub mod Order
pub mod Pages
pub mod Walk
use new_builders_stream.Prelude.{
  ℕ, zero, suc, ◌+◌, ◌==◌, ltb, Bool, ◌&&◌, ◌||◌, if◌then◌else◌, Option, none, some, List, [], ◌∷◌,
  length,
}
use new_builders_stream.Prelude.Table.{select}
use new_builders_stream.Core.Cursor.{Position, Codec, encode_cursor, decode_cursor}

-- The order of the pairs (created_at, id).
abbrev pub before : Position → Position → Bool
before p q = ltb p.created_at q.created_at || p.created_at == q.created_at && ltb p.id q.id

-- `rows[:n]`.
unfoldable pub take {ℓ} : {A : Type ℓ} → ℕ → List A → List A
take zero xs = []
take (suc n) [] = []
take (suc n) (x ∷ xs) = x ∷ take n xs

-- `rows[-1]`; none is an IndexError.
unfoldable pub get_last? {ℓ} : {A : Type ℓ} → List A → Option A
get_last? [] = none
get_last? (x ∷ xs) = elim (get_last? xs) [ none ↦ some x | some y ↦ some y ]

pub data PageResult (A : Type 0) : Type 0 where
  page : List A → Option (List ℕ) → PageResult A
  invalid_cursor index_error : PageResult A

module _ {A : Type 0} (key : A → Position) where
  -- ORDER BY created_at ASC, id ASC.
  unfoldable pub insert : A → List A → List A
  insert r [] = r ∷ []
  insert r (x ∷ xs) = if before (key x) (key r) then x ∷ insert r xs else r ∷ x ∷ xs

  unfoldable pub order_by : List A → List A
  unfolding insert
  order_by [] = []
  order_by (r ∷ rows) = insert r (order_by rows)

  -- WHERE (created_at, id) > position.
  unfoldable pub is_after : Position → A → Bool
  is_after p r = before p (key r)

  module _ (codec : Codec) where
    -- The trim of the extra row, and the cursor of the last row that stays.
    unfoldable pub trim : ℕ → List A → PageResult A
    trim limit rows =
        if ltb limit (length rows)
        then elim (get_last? (take limit rows)) [
          | none ↦ index_error
          | some last ↦ page (take limit rows) (some (encode_cursor codec (key last)))
        ]
        else page rows none

    unfoldable pub fetch_page : ℕ → List A → PageResult A
    fetch_page limit rows = trim limit (take (limit + 1) (order_by rows))

    unfoldable pub page_from : ℕ → List A → Option Position → PageResult A
    page_from limit rows none = invalid_cursor
    page_from limit rows (some p) = fetch_page limit (select (is_after p) rows)

    unfoldable pub paginate : Option (List ℕ) → ℕ → List A → PageResult A
    paginate none limit rows = fetch_page limit rows
    paginate (some cursor) limit rows = page_from limit rows (decode_cursor codec cursor)
