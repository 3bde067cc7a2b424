-- ===== src/Tests/CatalogRuns.antt =====
-- A catalog of a parent company, one item of which its child overrides.
use new_builders_stream.Prelude.{
  ℕ, suc, ◌≤◌, ◌≡◌, ◌==◌, if◌then◌else◌, ◌&&◌, not, refl, true, some, none, List, [], ◌∷◌, length,
  any, All,
}
use new_builders_stream.Prelude.Table.{find, count_where}
use new_builders_stream.Prelude.Int.{pos}
use new_builders_stream.Money.{from_cents}
use new_builders_stream.Models.{CostCatalogItem}
use new_builders_stream.Sales.Catalog.{
  root_walk, root_identity_id, comes_before, resolve_visible_catalog_items,
}
use new_builders_stream.Sales.Catalog.Roots.{root_walk_total}
use new_builders_stream.Sales.Catalog.Closest.{resolve_visible_catalog_items_lem}

abbrev lumber : CostCatalogItem
lumber = record {
  id = 1;
  company_id = 10;
  category = "wood";
  name = "2x4";
  unit = "each";
  unit_rate = from_cents (pos 450);
  parent_catalog_item_id = none;
  updated_at = 50;
}

abbrev own_lumber : CostCatalogItem
own_lumber = record lumber {
  id = 2;
  company_id = 11;
  parent_catalog_item_id = some 1;
  updated_at = 40;
}

abbrev own_nails : CostCatalogItem
own_nails = record lumber { id = 3; company_id = 11; name = "nails" }

abbrev visible : List CostCatalogItem
visible = lumber ∷ own_lumber ∷ own_nails ∷ []

-- The parent's chain is its own identifier, the child's has two.
abbrev chain_length : ℕ → ℕ
chain_length company_id = if company_id == 10 then 1 else 2

resolve_visible_catalog_items_lem_example :
    (count_where
        (λ (r : CostCatalogItem). root_identity_id visible r == 1)
        (resolve_visible_catalog_items chain_length 11 visible)
      ≤ 1)
    × All
        (λ (i : CostCatalogItem).
          any
            (λ (r : CostCatalogItem).
              root_identity_id visible r == root_identity_id visible i
              && not (comes_before chain_length 11 i r))
            (resolve_visible_catalog_items chain_length 11 visible)
          ≡ true)
        visible
resolve_visible_catalog_items_lem_example =
    resolve_visible_catalog_items_lem chain_length 11 visible 1

found_own : find (λ x. x.id) own_lumber.id visible ≡ some own_lumber
unfolding find
found_own = refl

root_walk_total_example :
    (root : CostCatalogItem) × (root_walk (suc (length visible)) [] visible own_lumber
      ≡ some root.id)
    × (find (λ x. x.id) root.id visible ≡ some root)
root_walk_total_example = root_walk_total visible own_lumber found_own
