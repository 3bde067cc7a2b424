-- ===== src/Sales/Catalog/Roots.antt =====
-- The walk to the root of a chain of overrides ends, also on a cycle.
use new_builders_stream.Prelude.{
  ℕ, zero, suc, ◌≤◌, ◌<◌, ◌≡◌, refl, ap, ◌∙◌, Bool, true, false, Bool-cases, Option-cases, inl, inr,
  not, ◌==◌, ◌||◌, none, some, List, [], ◌∷◌, any, length, arith, ==_iff,
}
use new_builders_stream.Prelude.Table.{find, find_key, count_where}
use new_builders_stream.Models.{CostCatalogItem}
use new_builders_stream.Sales.Catalog.{root_walk}

was_seen : ℕ → List ℕ → Bool
was_seen id seen = any (λ i. i == id) seen

was_seen-cons : (i k : ℕ) (seen : List ℕ) → was_seen i (k ∷ seen) ≡ (k == i || was_seen i seen)
unfolding was_seen
was_seen-cons i k seen = refl

-- How many rows the walk has not been at.
unseen : List ℕ → List CostCatalogItem → ℕ
unfolding count_where
unseen seen items = count_where (λ x. not (was_seen x.id seen)) items

unseen_le : (seen : List ℕ) (items : List CostCatalogItem) → unseen seen items ≤ length items
unfolding unseen count_where
unseen_le seen [] = omega arith
unseen_le seen (x ∷ items) = ground (arith, unseen_le seen items)

unseen-cons_le :
    (k : ℕ) (seen : List ℕ) (items : List CostCatalogItem)
    → unseen (k ∷ seen) items ≤ unseen seen items
unfolding unseen count_where
unseen-cons_le k seen [] = omega arith
unseen-cons_le k seen (x ∷ items) =
    ground (arith, was_seen-cons x.id k seen, unseen-cons_le k seen items)

was_seen-eq : (a b : ℕ) (seen : List ℕ) → (a == b) ≡ true → was_seen a seen ≡ was_seen b seen
was_seen-eq a b seen h = ap (λ i. was_seen i seen) ((==_iff a b).0 h)

-- Going on from a row that was not seen leaves one row less.
unseen-cons_lt :
    (c : CostCatalogItem) (seen : List ℕ) (items : List CostCatalogItem)
    → find (λ x. x.id) c.id items ≡ some c
    → was_seen c.id seen ≡ false
    → unseen (c.id ∷ seen) items < unseen seen items
unfolding unseen find count_where
unseen-cons_lt c seen [] here new = absurd (cc)
unseen-cons_lt c seen (x ∷ items) here new = elim (Bool-cases (x.id == c.id)) [
  | inl e ↦ ground (
    arith,
    was_seen-cons x.id c.id seen,
    was_seen-eq x.id c.id seen e,
    unseen-cons_le c.id seen items,
  )
  | inr e ↦
      ground (arith, was_seen-cons x.id c.id seen, unseen-cons_lt c seen items (rw e at here) new)
]

-- The walk ends at a row.
abbrev IsRooted : ℕ → List ℕ → List CostCatalogItem → CostCatalogItem → Type 0
IsRooted fuel seen items c =
    (root : CostCatalogItem) × (root_walk fuel seen items c ≡ some root.id)
    × (find (λ x. x.id) root.id items ≡ some root)

module _ (fuel : ℕ) (seen : List ℕ) (items : List CostCatalogItem) (c : CostCatalogItem) where
  walk_original : c.parent_catalog_item_id ≡ none → root_walk (suc fuel) seen items c ≡ some c.id
  unfolding root_walk
  walk_original e = rw (root_walk, e)

  module _ (parent_id : ℕ) (link : c.parent_catalog_item_id ≡ some parent_id) where
    walk_seen : was_seen c.id seen ≡ true → root_walk (suc fuel) seen items c ≡ some c.id
    unfolding root_walk was_seen
    walk_seen old = rw (root_walk, link, old)

    walk_gone :
        was_seen c.id seen ≡ false
        → find (λ x. x.id) parent_id items ≡ none
        → root_walk (suc fuel) seen items c ≡ some c.id
    unfolding root_walk was_seen
    walk_gone new gone = rw (root_walk, link, new, gone)

    walk_on :
        (parent : CostCatalogItem)
        → was_seen c.id seen ≡ false
        → find (λ x. x.id) parent_id items ≡ some parent
        → root_walk (suc fuel) seen items c ≡ root_walk fuel (c.id ∷ seen) items parent
    unfolding root_walk was_seen
    walk_on parent new found = rw (root_walk, link, new, found)

  -- One step of the walk, by what is known of the row that it goes on to.
  walk_step :
      find (λ x. x.id) c.id items ≡ some c
      → ((parent : CostCatalogItem)
          → was_seen c.id seen ≡ false
          → find (λ x. x.id) parent.id items ≡ some parent
          → IsRooted fuel (c.id ∷ seen) items parent)
      → IsRooted (suc fuel) seen items c
  walk_step here next = elim (Option-cases c.parent_catalog_item_id) [
    | inl original ↦ (c, walk_original original, here)
    | inr (parent_id, link) ↦ elim (Bool-cases (was_seen c.id seen)) [
      | inl old ↦ (c, walk_seen parent_id link old, here)
      | inr new ↦ elim (Option-cases (find (λ x. x.id) parent_id items)) [
        | inl gone ↦ (c, walk_gone parent_id link new gone, here)
        | inr (parent, found) ↦
            let known =
              ap (λ i. find (λ (x : CostCatalogItem). x.id) i items)
                (find_key (λ x. x.id) parent_id parent items found)
              ∙ found in
            let (root, walk, row) = next parent new known in
            (root, walk_on parent_id link parent new found ∙ walk, row)
      ]
    ]
  ]

walk_total :
    (fuel : ℕ) (seen : List ℕ) (items : List CostCatalogItem) (c : CostCatalogItem)
    → find (λ x. x.id) c.id items ≡ some c
    → unseen seen items < fuel
    → IsRooted fuel seen items c
walk_total zero seen items c here enough = absurd (omega arith)
walk_total (suc fuel) seen items c here enough =
    walk_step fuel seen items c here λ parent new known.
      walk_total fuel (c.id ∷ seen) items parent known
        (omega (arith, unseen-cons_lt c seen items here new))

-- For a row of the table, one step more than there are rows takes the walk to its end, whatever the
-- links between the rows, cycles included, and the identity that it ends at is a row of the table.
pub root_walk_total :
    (items : List CostCatalogItem) (item : CostCatalogItem)
    → find (λ x. x.id) item.id items ≡ some item
    → (root : CostCatalogItem) × (root_walk (suc (length items)) [] items item ≡ some root.id)
      × (find (λ x. x.id) root.id items ≡ some root)
root_walk_total items item here =
    walk_total (suc (length items)) [] items item here (omega (arith, unseen_le [] items))
