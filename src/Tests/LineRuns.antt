-- ===== src/Tests/LineRuns.antt =====
-- The line items of a draft estimate, replaced by a free-form line and a catalogued one.
use new_builders_stream.Prelude.{
  ◌≡◌, refl, true, false, not, any, none, some, Option, List, [], ◌∷◌,
}
use new_builders_stream.Prelude.Int.{pos}
use new_builders_stream.Prelude.Table.{find, select}
use new_builders_stream.Money.{from_cents, same_decimal}
use new_builders_stream.Models.{
  Db, CurrentUser, project_manager, Estimate, EstimateStatus, EstimateLineItem, CostCatalogItem,
}
use new_builders_stream.Core.Exec.{Result, ok, err}
use new_builders_stream.Core.Access.{authorize_module, tier_allows}
use new_builders_stream.Core.Lookup.{require_client_access_to_estimate}
use new_builders_stream.Sales.Catalog.{
  root_walk, root_identity_id, append_to, group_from, closest_from, closest,
  resolve_visible_catalog_items,
}
use new_builders_stream.Sales.Estimates.{is_sent, estimate_row, get_estimate_or_404}
use new_builders_stream.Sales.Estimates.LineItems.{
  EstimateLineItemInput, exactly_one_shape, resolve_line, resolve_lines, resolved_catalog,
  is_rate_conflict, insert_lines, delete_lines, position_taken, replace_estimate_line_items,
}
use new_builders_stream.Sales.Estimates.LineItems.Total.{
  lines_total, priced, others_of, replace_estimate_line_items_lem,
}
use new_builders_stream.Tests.Sample.{bookkeeper, start}

abbrev manager : CurrentUser
manager = record bookkeeper { role = project_manager }

abbrev draft : Estimate
draft = record {
  id = 30;
  company_id = 2;
  project_id = some 5;
  lead_id = none;
  markup_profile_id = 1;
  status = EstimateStatus.draft;
  subtotal = none;
  total = none;
  is_snapshotted = false;
  esignature_id = none;
}

abbrev gravel : CostCatalogItem
gravel = record {
  id = 50;
  company_id = 2;
  category = "site";
  name = "Gravel";
  unit = "ton";
  unit_rate = from_cents (pos 4550);
  parent_catalog_item_id = none;
  updated_at = 7;
}

abbrev drafted : Db
drafted = record start { estimates = draft ∷ []; cost_catalog_items = gravel ∷ [] }

abbrev two_lines : List EstimateLineItemInput
two_lines =
    record {
      cost_catalog_item_id = some 50;
      quantity = from_cents (pos 300);
      expected_unit_rate = some (from_cents (pos 4550));
      description = none;
      unit = none;
      unit_rate = none;
    }
    ∷ record {
      cost_catalog_item_id = none;
      quantity = from_cents (pos 100);
      expected_unit_rate = none;
      description = some "Permit";
      unit = some "each";
      unit_rate = some (from_cents (pos 12000));
    }
    ∷ []

-- What the request returns, if it returns.
reply : Result (Estimate × List EstimateLineItem) → Estimate × List EstimateLineItem
reply (ok pair) = pair
reply (err e) = (draft, [])

replace_estimate_line_items_lem_example :
    let db' = (replace_estimate_line_items manager 30 two_lines drafted).1 in
    (e : Estimate) × (estimate_row manager.session 30 drafted ≡ some e)
    × (draft ≡ e)
    × (not e.is_snapshotted ≡ true)
    × (not (is_sent e.status) ≡ true)
    × (lines : List (EstimateLineItemInput × Option CostCatalogItem)) × (resolve_lines
          (resolved_catalog manager drafted)
          two_lines
        ≡ some lines)
    × (not (any is_rate_conflict lines) ≡ true)
    × (lines_total manager.session e.id db'.line_items ≡ priced lines)
    × (others_of e.id db'.line_items ≡ others_of e.id drafted.line_items)
    × (db'.estimates ≡ drafted.estimates)
unfolding reply replace_estimate_line_items authorize_module tier_allows get_estimate_or_404
    estimate_row require_client_access_to_estimate is_sent resolve_lines resolve_line
    resolved_catalog resolve_visible_catalog_items group_from append_to root_identity_id root_walk
    closest closest_from find select exactly_one_shape is_rate_conflict same_decimal delete_lines
    position_taken insert_lines
replace_estimate_line_items_lem_example =
    let ran = replace_estimate_line_items manager 30 two_lines drafted in
    replace_estimate_line_items_lem manager 30 two_lines (reply ran.0) drafted ran.1 refl
