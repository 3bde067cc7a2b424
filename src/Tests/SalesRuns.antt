-- ===== src/Tests/SalesRuns.antt =====
-- Leads, projects and change orders at concrete data.
use new_builders_stream.Prelude.{
  String, ◌≤◌, ◌≡◌, refl, Bool, true, false, not, ◌&&◌, ◌||◌, ltb, ◌⊎◌, none, some, [], ◌∷◌,
  if◌then◌else◌,
}
use new_builders_stream.Prelude.Int.{pos}
use new_builders_stream.Prelude.Table.{replace, count_where}
use new_builders_stream.Models.{
  Db, CurrentUser, admin, client, Lead, LeadStatus, Project, ProjectStatus, ChangeOrder,
  ChangeOrderStatus, Estimate, EstimateStatus,
}
use new_builders_stream.Core.Exec.{HttpError, ok, err}
use new_builders_stream.Core.Access.{
  same_role, tier_allows, authorize_write, authorize_module, require_role, require_module,
  block_if_read_only,
}
use new_builders_stream.Core.Audit.{write_audit_log}
use new_builders_stream.Core.Events.{publish, call_all, handlers}
use new_builders_stream.Core.Lookup.{get_project_or_404, require_client_access_to_project}
use new_builders_stream.Sales.Leads
use new_builders_stream.Sales.Leads.{
  LeadUpdateRequest, unset, update_lead, lead_row, is_current, requested, status_changing, is_won,
  get_lead_or_404, stamped, with_fields, same_columns, write_lead, status_changed, publish_won,
  update_row, call_won, lead_was_won,
}
use new_builders_stream.Sales.Leads.Pipeline.{
  still, move, distance, Moves-distance, drafted, update_lead_lem,
}
use new_builders_stream.Sales.Projects
use new_builders_stream.Sales.Projects.{
  ProjectCompleted, ProjectStatusUpdateRequest, project_was_completed, approved_count, same_status,
  is_completed, pending_count, update_project_status, change_order_is_pending, change_status,
  update_project, publish_completed, call_completed,
}
use new_builders_stream.Sales.Projects.Transitions.{stage, update_project_status_lem}
use new_builders_stream.Sales.ChangeOrders.{
  SignatureForm, change_order_row, approve_change_order, reject_change_order,
  get_change_order_or_404, require_signer_is_caller, fits_upload, sign_change_order,
  capture_esignature, update_change_order,
}
use new_builders_stream.Sales.ChangeOrders.Signed.{
  signed, signature, approve_change_order_lem, decided_once,
}
use new_builders_stream.Tests.Sample.{session, bookkeeper, start, billed, branch_project}

Moves-distance_example : 4 ≡ distance LeadStatus.new
unfolding Leads.is_legal_transition
Moves-distance_example = Moves-distance 4 LeadStatus.new (
    move 3 LeadStatus.new LeadStatus.contacted LeadStatus.won refl (
      move 2 LeadStatus.contacted LeadStatus.estimating LeadStatus.won refl (
        move 1 LeadStatus.estimating LeadStatus.qualified LeadStatus.won refl
          (move 0 LeadStatus.qualified LeadStatus.won LeadStatus.won refl (still LeadStatus.won)))))

abbrev boss : CurrentUser
boss = record bookkeeper { role = admin }

abbrev lead : Lead
lead = record {
  id = 20;
  company_id = 2;
  contact_name = "Ada";
  project_name = "Roof";
  email = "ada@example.com";
  phone = none;
  status = LeadStatus.qualified;
  estimated_value = none;
  project_type = "roof";
  notes = none;
  updated_at = 400;
}

abbrev with_lead : Db
with_lead = record start { leads = lead ∷ [] }

abbrev win : LeadUpdateRequest
win = record {
  contact_name = unset;
  project_name = unset;
  email = unset;
  phone = unset;
  project_type = unset;
  estimated_value = unset;
  notes = unset;
  status = some LeadStatus.won;
  expected_updated_at = some 400;
}

abbrev won_lead : Lead
won_lead = record lead { status = LeadStatus.won; updated_at = 500 }

update_lead_lem_example :
    (old : Lead) × (lead_row session 20 with_lead ≡ some old)
    × (is_current (some 400) old.updated_at ≡ true)
    × (LeadStatus.won ≡ requested (some LeadStatus.won) old)
    × ((LeadStatus.won ≡ old.status) ⊎ (Leads.is_legal_transition old.status LeadStatus.won ≡ true))
    × ((update_lead boss 20 win with_lead).1.projects ≡ (
        if status_changing (some LeadStatus.won) old && is_won LeadStatus.won
        then drafted won_lead 100 ∷ start.projects
        else start.projects))
unfolding update_lead authorize_write require_role block_if_read_only same_role lead_row
    get_lead_or_404 is_current status_changing requested stamped with_fields write_lead
    status_changed publish_won update_row write_audit_log publish call_all handlers call_won
    lead_was_won same_columns Leads.is_legal_transition
update_lead_lem_example =
    update_lead_lem boss 20 win won_lead with_lead (update_lead boss 20 win with_lead).1 refl

abbrev quote : Estimate
quote = record {
  id = 30;
  company_id = 2;
  project_id = some 5;
  lead_id = none;
  markup_profile_id = 1;
  status = EstimateStatus.approved;
  subtotal = some (pos 24000);
  total = some (pos 25000);
  is_snapshotted = true;
  esignature_id = some 31;
}

abbrev quoted : Db
quoted = record billed { estimates = quote ∷ [] }

abbrev completion : ProjectCompleted
completion = record { project_id = 5; company_id = 2; actor_id = 7 }

abbrev complete : ProjectStatusUpdateRequest
complete = record { status = ProjectStatus.completed; reason = none }

update_project_status_lem_example :
    (project : Project) × (get_project_or_404 boss 5 start ≡ (ok project, start))
    × (((same_status ProjectStatus.completed project.status ≡ true)
          × (record branch_project { status = ProjectStatus.completed } ≡ project)
          × ((update_project_status boss 5 complete start).1 ≡ start))
        ⊎ ((record branch_project { status = ProjectStatus.completed }
              ≡ record project { status = ProjectStatus.completed })
            × (Projects.is_legal_transition project.status ProjectStatus.completed ≡ true)
            × (stage project.status ≤ stage ProjectStatus.completed)
            × ((is_completed ProjectStatus.completed
                  && ltb 0 (pending_count session project.id start))
                ≡ false)))
unfolding update_project_status authorize_write require_role block_if_read_only same_role
    get_project_or_404 same_status is_completed pending_count change_status update_project
    publish_completed write_audit_log publish call_all handlers call_completed project_was_completed
    Projects.is_legal_transition approved_count tier_allows count_where
update_project_status_lem_example =
    update_project_status_lem boss 5 complete
      (record branch_project { status = ProjectStatus.completed }) start
      (update_project_status boss 5 complete start).1 refl

abbrev customer : CurrentUser
customer = record bookkeeper { role = client; user_id = 8; email = "c@example.com" }

abbrev extra : ChangeOrder
extra = record {
  id = 60;
  project_id = 5;
  company_id = 2;
  description = "Skylight";
  cost_delta = pos 9000;
  schedule_impact_days = pos 2;
  status = ChangeOrderStatus.pending;
  esignature_id = none;
}

abbrev with_extra : Db
with_extra = record start {
  change_orders = extra ∷ [];
  project_clients = record { parent_id = 5; company_id = 2; user_id = 8 } ∷ [];
}

abbrev form : SignatureForm
form = record {
  signer_name = "C";
  signer_email = "c@example.com";
  ip_address = "10.0.0.1";
  artifact_size = 900;
}

-- Every address is taken for the same.
abbrev any_email : String → String → Bool
any_email a b = true

approve_change_order_lem_example :
    let db' = (approve_change_order any_email customer 60 form with_extra).1 in
    (r : ChangeOrder) × (change_order_row session 60 with_extra ≡ some r)
    × (change_order_is_pending r.status ≡ true)
    × ((not (same_role client client) || any_email "c@example.com" "c@example.com") ≡ true)
    × (signed extra with_extra ≡ signed r with_extra)
    × (db'.esignatures ≡ signature customer r form with_extra ∷ [])
    × (db'.change_orders ≡ replace (λ x. x.id) (signed r with_extra) with_extra.change_orders)
    × (db'.projects ≡ with_extra.projects)
unfolding approve_change_order authorize_module authorize_write require_role block_if_read_only
    require_module same_role get_change_order_or_404 change_order_row
    require_client_access_to_project change_order_is_pending require_signer_is_caller fits_upload
    sign_change_order capture_esignature update_change_order write_audit_log
approve_change_order_lem_example =
    approve_change_order_lem any_email customer 60 form with_extra (signed extra with_extra)
      (approve_change_order any_email customer 60 form with_extra).1 refl

abbrev decided : Db
decided = record with_extra { change_orders = signed extra with_extra ∷ [] }

decided_once_example :
    ((e : HttpError) × (approve_change_order any_email customer 60 form decided ≡ (err e, decided)))
    × ((e : HttpError) × (reject_change_order customer 60 "late" decided ≡ (err e, decided)))
unfolding change_order_row change_order_is_pending
decided_once_example =
    decided_once any_email customer 60 form decided (signed extra with_extra) "late" refl refl
