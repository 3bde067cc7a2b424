-- ===== src/Sales/Catalog.antt =====
-- backend/app/services/catalog_resolution.py: the one row of each catalog item that a company sees.
-- The rows that the bidirectional row-level security shows, and the lengths of the companies' chains
-- of ancestors (get_all_ancestor_ids), are arguments.
pub mod Roots
pub mod Closest
use new_builders_stream.Prelude.{
  ℕ, zero, suc, ◌-◌, ◌==◌, ◌&&◌, ◌||◌, ltb, leb, Bool, true, false, if◌then◌else◌, Option, none,
  some, List, [], ◌∷◌, ◌++◌, any, length, map,
}
use new_builders_stream.Prelude.Table.{find}
use new_builders_stream.Models.{CostCatalogItem}

-- `_compute_hop_distance`; none is infinite.
unfoldable pub compute_hop_distance : ℕ → ℕ → Option ℕ
compute_hop_distance chain_length active_chain_length =
    if leb chain_length active_chain_length then some (active_chain_length - chain_length) else none

-- The walk of `_root_identity_id`, at most `fuel` rows of it; none if they do not suffice.
unfoldable pub root_walk : ℕ → List ℕ → List CostCatalogItem → CostCatalogItem → Option ℕ
root_walk zero seen items current = none
root_walk (suc fuel) seen items current = elim current.parent_catalog_item_id [
  | none ↦ some current.id
  | some parent_id ↦
      let further : Option ℕ = elim (find (λ x. x.id) parent_id items) [
        | none ↦ some current.id
        | some parent ↦ root_walk fuel (current.id ∷ seen) items parent
      ] in
      if any (λ i. i == current.id) seen then some current.id else further
]

-- One row more than there are: Roots.antt shows that it suffices.
unfoldable pub root_identity_id : List CostCatalogItem → CostCatalogItem → ℕ
root_identity_id items item = elim (root_walk (suc (length items)) [] items item) [
  | none ↦ item.id
  | some root ↦ root
]

abbrev pub closer : Option ℕ → Option ℕ → Bool
closer none b = false
closer (some a) none = true
closer (some a) (some b) = ltb a b

abbrev pub same_distance : Option ℕ → Option ℕ → Bool
same_distance none none = true
same_distance (some a) (some b) = a == b
same_distance _ _ = false

-- A value of `groups`: a root, and the rows that lead to it.
pub record Group : Type 0 where
  pub root : ℕ
  pub first : CostCatalogItem
  pub rest : List CostCatalogItem

-- `groups.setdefault(root, []).append(item)`; a dict keeps the order of insertion.
unfoldable pub append_to : ℕ → CostCatalogItem → List Group → List Group
append_to root item [] = record { root = root; first = item; rest = [] } ∷ []
append_to root item (g ∷ gs) =
    if g.root == root
    then record g { rest = g.rest ++ item ∷ [] } ∷ gs
    else g ∷ append_to root item gs

unfoldable pub group_from : List CostCatalogItem → List CostCatalogItem → List Group → List Group
group_from all [] gs = gs
group_from all (item ∷ items) gs =
    group_from all items (append_to (root_identity_id all item) item gs)

module _ (chain_length : ℕ → ℕ) (active_company_id : ℕ) where
  -- `_sort_key`: the distance, then the time of the last update, the latest first, then the id.
  unfoldable pub comes_before : CostCatalogItem → CostCatalogItem → Bool
  comes_before a b =
      let active = chain_length active_company_id in
      let da = compute_hop_distance (chain_length a.company_id) active in
      let db = compute_hop_distance (chain_length b.company_id) active in
      closer da db
      || (same_distance da db
          && (ltb b.updated_at a.updated_at || (a.updated_at == b.updated_at && ltb a.id b.id)))

  -- `min(group_items, key=_sort_key)`.
  unfoldable pub closest_from : CostCatalogItem → List CostCatalogItem → CostCatalogItem
  closest_from best [] = best
  closest_from best (x ∷ xs) = closest_from (if comes_before x best then x else best) xs

  unfoldable pub closest : Group → CostCatalogItem
  closest g = closest_from g.first g.rest

  unfoldable pub resolve_visible_catalog_items : List CostCatalogItem → List CostCatalogItem
  resolve_visible_catalog_items visible = map closest (group_from visible visible [])
