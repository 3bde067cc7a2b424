-- ===== src/Sales/Estimates/LineItems.antt =====
-- `replace_estimate_line_items` of backend/app/routers/estimates.py, and its request in
-- backend/app/schemas/estimate_line_item.py without the lengths of its texts.
pub mod Total
use new_builders_stream.Prelude.{
  ℕ, suc, ltb, length, Bool, true, false, not, ◌&&◌, ◌||◌, ◌==◌, any, is_none, String, Option, some,
  none, List, [], ◌∷◌, if◌then◌else◌,
}
use new_builders_stream.Prelude.Int.{ℤ, pos}
use new_builders_stream.Prelude.Table.{find, select}
use new_builders_stream.Money.{Decimal, same_decimal, times, quantize_cents}
use new_builders_stream.Models.{
  Db, CurrentUser, estimation, Estimate, EstimateLineItem, CostCatalogItem,
}
use new_builders_stream.Core.Exec.{
  Exec, conflict, unprocessable, pure, gets, modify, require, or_raise, uuid4, ◌>>=◌, ◌>>◌,
}
use new_builders_stream.Core.Access.{put, authorize_module}
use new_builders_stream.Sales.Projects.{project_roles}
use new_builders_stream.Sales.Catalog.{resolve_visible_catalog_items}
use new_builders_stream.Sales.Estimates.{is_sent, get_estimate_or_404}

pub record EstimateLineItemInput : Type 0 where
  pub cost_catalog_item_id : Option ℕ
  pub quantity : Decimal
  pub expected_unit_rate : Option Decimal
  pub description : Option String
  pub unit : Option String
  pub unit_rate : Option Decimal

-- `_exactly_one_shape`.
unfoldable pub exactly_one_shape : EstimateLineItemInput → Bool
exactly_one_shape line =
    let catalogued = not (is_none line.cost_catalog_item_id) in
    let free_form =
      not (is_none line.description) || (not (is_none line.unit) || not (is_none line.unit_rate)) in
    if catalogued && free_form
    then false
    else if not catalogued && not free_form
    then false
    else if free_form
    then not (is_none line.description || (is_none line.unit || is_none line.unit_rate))
      && is_none line.expected_unit_rate
    else true

-- `resolved_by_id.get`; a free-form line has no catalog item. None for one that does not resolve.
unfoldable pub resolve_line :
    List CostCatalogItem
    → EstimateLineItemInput
    → Option (EstimateLineItemInput × Option CostCatalogItem)
resolve_line items line = elim line.cost_catalog_item_id [
  | none ↦ some (line, none)
  | some i ↦ elim (find (λ c. c.id) i items) [ none ↦ none | some item ↦ some (line, some item) ]
]

unfoldable pub resolve_lines :
    List CostCatalogItem
    → List EstimateLineItemInput
    → Option (List (EstimateLineItemInput × Option CostCatalogItem))
resolve_lines items [] = some []
resolve_lines items (line ∷ lines) =
    let rest = resolve_lines items lines in
    elim (resolve_line items line) [
      | none ↦ none
      | some resolved ↦ elim rest [ none ↦ none | some others ↦ some (resolved ∷ others) ]
    ]

-- A rate that the request expects and the catalog no longer has.
unfoldable pub is_rate_conflict : EstimateLineItemInput × Option CostCatalogItem → Bool
is_rate_conflict (line, none) = false
is_rate_conflict (line, some item) = elim line.expected_unit_rate [
  | none ↦ false
  | some expected ↦ not (same_decimal expected item.unit_rate)
]

-- `catalog_item.unit_rate if catalog_item is not None else (line.unit_rate or Decimal("0"))`.
unfoldable pub unit_rate_of : EstimateLineItemInput → Option CostCatalogItem → Decimal
unit_rate_of line (some item) = item.unit_rate
unit_rate_of line none = elim line.unit_rate [
  | none ↦ record { coefficient = pos 0; places = 0 }
  | some rate ↦ rate
]

unfoldable pub line_total_of : EstimateLineItemInput → Option CostCatalogItem → ℤ
line_total_of line item = quantize_cents (times line.quantity (unit_rate_of line item))

unfoldable pub insert_lines :
    Estimate
    → ℕ
    → List (EstimateLineItemInput × Option CostCatalogItem)
    → Exec (List EstimateLineItem)
insert_lines estimate position [] = pure []
insert_lines estimate position ((line, item) ∷ lines) = do
  id ← uuid4
  let line_item : EstimateLineItem = record {
    id = id;
    estimate_id = estimate.id;
    company_id = estimate.company_id;
    position = position;
    cost_catalog_item_id = line.cost_catalog_item_id;
    description = line.description;
    unit = line.unit;
    quantity = line.quantity;
    unit_rate_snapshot = unit_rate_of line item;
    line_total = line_total_of line item;
  }
  modify (λ db. record db { line_items = line_item ∷ db.line_items })
  others ← insert_lines estimate (suc position) lines
  pure (line_item ∷ others)

-- `resolve_visible_catalog_items(current.session, current.company_id)`.
unfoldable pub resolved_catalog : CurrentUser → Db → List CostCatalogItem
resolved_catalog current db =
    resolve_visible_catalog_items current.session.chain_length current.company_id
      (select (λ c. current.session.catalog_visible c.company_id) db.cost_catalog_items)

-- The lines are deleted as row-level security shows them.
unfoldable pub delete_lines : CurrentUser → ℕ → Exec (Unit {0})
delete_lines current i = modify λ db. record db {
  line_items =
      select (λ l. not (current.session.visible l.company_id && l.estimate_id == i)) db.line_items;
}

-- A row that the delete has left holds a position that is about to be written: the constraint on
-- the estimate and the position.
unfoldable pub position_taken : ℕ → ℕ → List EstimateLineItem → Bool
position_taken i count rows = any (λ l. l.estimate_id == i && ltb l.position count) rows

unfoldable pub replace_estimate_line_items :
    CurrentUser → ℕ → List EstimateLineItemInput → Exec (Estimate × List EstimateLineItem)
replace_estimate_line_items current i items = do
  authorize_module current project_roles put estimation
  require (not (any (λ line. not (exactly_one_shape line)) items))
      (unprocessable "a line item is either catalogued or free-form")
  estimate ← get_estimate_or_404 current i
  require (not estimate.is_snapshotted)
      (conflict "Estimate is snapshotted and its line items can no longer be modified")
  require (not (is_sent estimate.status))
      (conflict "Estimate is awaiting client signature and its line items cannot be modified")
  resolved_items ← gets (resolved_catalog current)
  lines ←
      or_raise (unprocessable "does not resolve to a visible catalog item for this company")
        (resolve_lines resolved_items items)
  require (not (any is_rate_conflict lines)) (conflict "catalog rate(s) changed")
  delete_lines current estimate.id
  taken ← gets λ db. position_taken estimate.id (length lines) db.line_items
  require (not taken) (conflict "These line items were changed by someone else")
  rows ← insert_lines estimate 0 lines
  pure (estimate, rows)
