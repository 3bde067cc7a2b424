-- ===== src/Sales/Estimates/Materials.antt =====
-- The bill of materials of an approved estimate: backend/app/services/bom_generation_handler.py.
use new_builders_stream.Prelude.{
  ℕ, Bool, false, ◌&&◌, ◌||◌, ◌==◌, ltb, Option, some, none, List, [], ◌∷◌, if◌then◌else◌,
}
use new_builders_stream.Prelude.Table.{find, replace, select}
use new_builders_stream.Money.{plus}
use new_builders_stream.Models.{
  Db, Session, estimation, EstimateLineItem, CostCatalogItem, BomLine, uuid,
}
use new_builders_stream.Core.Exec.{Exec, pure, gets, modify, uuid4, ◌>>=◌, ◌>>◌}
use new_builders_stream.Core.Access.{tier_allows}
use new_builders_stream.Core.Audit.{write_audit_log}
use new_builders_stream.Sales.Estimates.Deposit.{EstimateApproved}

-- ORDER BY position, id: the row goes before the first that it precedes.
precedes : EstimateLineItem → EstimateLineItem → Bool
precedes a b = ltb a.position b.position || (a.position == b.position && ltb a.id b.id)

insert_ordered : EstimateLineItem → List EstimateLineItem → List EstimateLineItem
unfolding precedes
insert_ordered a [] = a ∷ []
insert_ordered a (b ∷ rows) =
    let rest = insert_ordered a rows in if precedes a b then a ∷ b ∷ rows else b ∷ rest

in_order : List EstimateLineItem → List EstimateLineItem
unfolding insert_ordered
in_order [] = []
in_order (a ∷ rows) = insert_ordered a (in_order rows)

-- The inner join with the catalog: a line without a visible item drops out.
catalog_item : Session → Option ℕ → Db → Option CostCatalogItem
unfolding find
catalog_item session none db = none
catalog_item session (some i) db = elim (find (λ c. c.id) i db.cost_catalog_items) [
  | none ↦ none
  | some c ↦ if session.catalog_visible c.company_id then some c else none
]

join_catalog : Session → Db → List EstimateLineItem → List (EstimateLineItem × CostCatalogItem)
unfolding catalog_item
join_catalog session db [] = []
join_catalog session db (l ∷ rows) =
    let rest = join_catalog session db rows in
    elim (catalog_item session l.cost_catalog_item_id db) [
      | none ↦ rest
      | some item ↦ (l, item) ∷ rest
    ]

unfoldable pub materials : Session → ℕ → Db → List (EstimateLineItem × CostCatalogItem)
unfolding in_order join_catalog select
materials session estimate_id db = join_catalog session db (
    in_order
      (select (λ l. session.visible l.company_id && l.estimate_id == estimate_id) db.line_items))

has_item : ℕ → Option ℕ → Bool
has_item i none = false
has_item i (some c) = c == i

-- `existing_by_catalog_id.get(i)`: of several lines the one inserted last.
pub existing_line : Session → ℕ → ℕ → List BomLine → Option BomLine
unfolding has_item
existing_line session project_id i [] = none
existing_line session project_id i (b ∷ rows) =
    let rest = existing_line session project_id i rows in
    if session.visible b.company_id
      && (b.project_id == project_id && has_item i b.cost_catalog_item_id)
    then some b
    else rest

-- One more quantity of an item that the project has, or a new line.
unfoldable pub add_to_line :
    EstimateApproved → ℕ → EstimateLineItem → CostCatalogItem → Option BomLine → Exec ℕ
add_to_line p project_id l item (some b) = do
  let more : BomLine = record b { quantity = plus b.quantity l.quantity }
  modify (λ db. record db { bom_lines = replace (λ x. x.id) more db.bom_lines })
  pure b.id
add_to_line p project_id l item none = do
  id ← uuid4
  let line : BomLine = record {
    id = id;
    company_id = p.company_id;
    project_id = project_id;
    cost_catalog_item_id = some item.id;
    vendor_id = none;
    description = item.name;
    unit = item.unit;
    quantity = l.quantity;
    ordered = false;
    ordered_at = none;
    source = "estimate";
  }
  modify (λ db. record db { bom_lines = line ∷ db.bom_lines })
  pure id

unfoldable pub add_materials :
    Session → EstimateApproved → ℕ → List (EstimateLineItem × CostCatalogItem) → Exec (Unit {0})
unfolding add_to_line existing_line
add_materials session p project_id [] = pure tt
add_materials session p project_id ((l, item) ∷ rows) = do
  existing ← gets (λ db. existing_line session project_id item.id db.bom_lines)
  bom_line_id ← add_to_line p project_id l item existing
  write_audit_log p.company_id none "bom_line.auto_generated" "bom_line" bom_line_id
      (("estimate_id", uuid p.estimate_id) ∷ [])
  add_materials session p project_id rows

-- `handle_estimate_approved_bom`.
unfoldable pub materials_were_approved : Session → EstimateApproved → Option ℕ → Exec (Unit {0})
unfolding add_materials
materials_were_approved session p none = pure tt
materials_were_approved session p (some project_id) = do
  allowed ← gets (tier_allows session p.company_id estimation)
  if allowed
      then (gets (materials session p.estimate_id) >>= add_materials session p project_id)
      else pure tt
