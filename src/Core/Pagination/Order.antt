-- ===== src/Core/Pagination/Order.antt =====
-- The order of a query's rows: sorted by position, and what lies after a position.
use mathlib.Core.List.{Perm}
use mathlib.Core.List.Perm
use new_builders_stream.Prelude.{
  ◌≡◌, refl, sym, ◌∙◌, Bool, true, false, Bool-cases, inl, inr, if◌then◌else◌, ◌==◌, List, [], ◌∷◌,
  All, All-map, length, suc, arith,
}
use new_builders_stream.Prelude.Table.{select}
use new_builders_stream.Core.Cursor.{Position}
use new_builders_stream.Core.Pagination.{before, insert, order_by}

pub before_trans : (p q r : Position) → before p q ≡ true → before q r ≡ true → before p r ≡ true
before_trans p q r h k = ground arith

pub before_irrefl : (p : Position) → before p p ≡ false
before_irrefl p = ground arith

pub before_asym : (p q : Position) → before p q ≡ true → before q p ≡ false
before_asym p q h = ground arith

before_total : (p q : Position) → before p q ≡ false → (p.id == q.id) ≡ false → before q p ≡ true
before_total p q h k = ground arith

module _ {A : Type 0} (P : A → Type 0) where
  pub All-select : (p : A → Bool) (xs : List A) → All P xs → All P (select p xs)
  unfolding select
  All-select p [] h = tt
  All-select p (x ∷ xs) h = elim (Bool-cases (p x)) [
    | inl yes_ ↦ rw yes_ (h.0, All-select p xs h.1)
    | inr no_ ↦ rw no_ (All-select p xs h.1)
  ]

module _ {A : Type 0} (key : A → Position) where
  -- Strictly ascending positions.
  abbrev pub IsSorted : List A → Type 0
  IsSorted [] = Unit
  IsSorted (x ∷ xs) = All (λ y. before (key x) (key y) ≡ true) xs × IsSorted xs

  -- The identifiers are a primary key.
  abbrev pub HasKeys : List A → Type 0
  HasKeys [] = Unit
  HasKeys (x ∷ xs) = All (λ y. ((key x).id == (key y).id) ≡ false) xs × HasKeys xs

  pub IsSorted-select : (p : A → Bool) (xs : List A) → IsSorted xs → IsSorted (select p xs)
  unfolding select
  IsSorted-select p [] h = tt
  IsSorted-select p (x ∷ xs) h = elim (Bool-cases (p x)) [
    | inl yes_ ↦ rw yes_ (All-select _ p xs h.0, IsSorted-select p xs h.1)
    | inr no_ ↦ rw no_ (IsSorted-select p xs h.1)
  ]

  All-insert : (P : A → Type 0) (r : A) (xs : List A) → P r → All P xs → All P (insert key r xs)
  unfolding insert
  All-insert P r [] h k = (h, tt)
  All-insert P r (x ∷ xs) h k = elim (Bool-cases (before (key x) (key r))) [
    | inl e ↦ rw e (k.0, All-insert P r xs h k.1)
    | inr e ↦ rw e (h, k)
  ]

  All-order_by : (P : A → Type 0) (rows : List A) → All P rows → All P (order_by key rows)
  unfolding order_by
  All-order_by P [] h = tt
  All-order_by P (r ∷ rows) h = All-insert P r (order_by key rows) h.0 (All-order_by P rows h.1)

  after_head :
      (r x : A) (xs : List A)
      → before (key r) (key x) ≡ true
      → All (λ y. before (key x) (key y) ≡ true) xs
      → All (λ y. before (key r) (key y) ≡ true) xs
  after_head r x xs e h = All-map xs (λ y. before_trans (key r) (key x) (key y) e) h

  insert-IsSorted :
      (r : A) (xs : List A)
      → All (λ y. ((key r).id == (key y).id) ≡ false) xs
      → IsSorted xs
      → IsSorted (insert key r xs)
  unfolding insert
  insert-IsSorted r [] d s = (tt, tt)
  insert-IsSorted r (x ∷ xs) d s = elim (Bool-cases (before (key x) (key r))) [
    | inl e ↦ rw e (All-insert _ r xs e s.0, insert-IsSorted r xs d.1 s.1)
    | inr e ↦
        let first = before_total (key x) (key r) e (ground (arith, d.0)) in
        rw e ((first, after_head r x xs first s.0), s)
  ]

  pub order_by-IsSorted : (rows : List A) → HasKeys rows → IsSorted (order_by key rows)
  unfolding order_by
  order_by-IsSorted [] h = tt
  order_by-IsSorted (r ∷ rows) h =
      insert-IsSorted r (order_by key rows) (All-order_by _ rows h.0) (order_by-IsSorted rows h.1)

  insert-perm : (r : A) (xs : List A) → Perm (insert key r xs) (r ∷ xs)
  unfolding insert
  insert-perm r [] = Perm.refl (r ∷ [])
  insert-perm r (x ∷ xs) = elim (Bool-cases (before (key x) (key r))) [
    | inl e ↦ rw e (Perm.trans (Perm.cons x (insert-perm r xs)) (Perm.swap r x xs))
    | inr e ↦ rw e (Perm.refl (r ∷ x ∷ xs))
  ]

  pub order_by-perm : (rows : List A) → Perm (order_by key rows) rows
  unfolding order_by
  order_by-perm [] = Perm.refl []
  order_by-perm (r ∷ rows) =
      Perm.trans (insert-perm r (order_by key rows)) (Perm.cons r (order_by-perm rows))

  length-insert : (r : A) (xs : List A) → length (insert key r xs) ≡ suc (length xs)
  unfolding insert
  length-insert r [] = refl
  length-insert r (x ∷ xs) = ground (arith, length-insert r xs)

  pub length-order_by : (rows : List A) → length (order_by key rows) ≡ length rows
  unfolding order_by
  length-order_by [] = refl
  length-order_by (r ∷ rows) =
      omega (arith, length-insert r (order_by key rows), length-order_by rows)

  insert_front :
      (r : A) (xs : List A) → All (λ y. before (key r) (key y) ≡ true) xs → insert key r xs ≡ r ∷ xs
  unfolding insert
  insert_front r [] h = refl
  insert_front r (x ∷ xs) h = rw (before_asym (key r) (key x) h.0)

  module _ (p : A → Bool) where
    select-insert :
        (r : A) (xs : List A)
        → All (λ y. ((key r).id == (key y).id) ≡ false) xs
        → IsSorted xs
        → select p (insert key r xs) ≡ (if p r then insert key r (select p xs) else select p xs)
    unfolding insert select
    select-insert r [] d s = ground arith
    select-insert r (x ∷ xs) d s = elim (Bool-cases (before (key x) (key r))) [
      | inl e ↦ ground (arith, select-insert r xs d.1 s.1)
      | inr e ↦
          let first = before_total (key x) (key r) e (ground (arith, d.0)) in
          let front =
            insert_front r (select p (x ∷ xs))
              (All-select _ p (x ∷ xs) (first, after_head r x xs first s.0)) in
          rw e (elim (Bool-cases (p r)) [ inl q ↦ rw q (sym front) | inr q ↦ rw q ])
    ]

    -- A filter of the ordered rows is the ordered filter.
    pub select-order_by :
        (rows : List A) → HasKeys rows → select p (order_by key rows) ≡ order_by key (select p rows)
    unfolding select order_by
    select-order_by [] h = refl
    select-order_by (r ∷ rows) h =
        select-insert r (order_by key rows) (All-order_by _ rows h.0) (order_by-IsSorted rows h.1)
        ∙ elim (Bool-cases (p r)) [
          | inl e ↦ rw (e, select-order_by rows h.1)
          | inr e ↦ rw (e, select-order_by rows h.1)
        ]
