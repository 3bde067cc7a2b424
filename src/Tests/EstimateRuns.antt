-- ===== src/Tests/EstimateRuns.antt =====
-- Estimates at concrete data.
use new_builders_stream.Prelude.{
  ℕ, ◌⊎◌, Option, String, ◌≡◌, refl, Bool, true, false, not, ◌||◌, none, some, [], ◌∷◌,
}
use new_builders_stream.Prelude.Int.{ℤ, pos}
use new_builders_stream.Prelude.Table.{replace}
use new_builders_stream.Money.{Decimal, from_cents, times, quantize_cents}
use new_builders_stream.Models.{
  Db, CurrentUser, client, accounting, pro, active, Estimate, EstimateStatus,
}
use new_builders_stream.Core.Exec.{HttpError, err}
use new_builders_stream.Core.Access.{same_role, tier_allows, authorize_module}
use new_builders_stream.Core.Audit.{write_audit_log}
use new_builders_stream.Core.Events.{publish, call_all, handlers}
use new_builders_stream.Core.Lookup.{require_client_access_to_estimate}
use new_builders_stream.Sales.Estimates.Materials.{
  materials, add_materials, materials_were_approved,
}
use new_builders_stream.Sales.ChangeOrders.{
  SignatureForm, capture_esignature, fits_upload, require_signer_is_caller,
}
use new_builders_stream.Sales.Estimates.{
  estimate_row, is_sent, get_estimate_or_404, update_estimate_row, calculate_estimate_totals,
  delete_estimate,
}
use new_builders_stream.Sales.Estimates.Deposit.{EstimateApproved, estimate_was_approved}
use new_builders_stream.Sales.Estimates.Deposit.Exact.{
  the_deposit, deposit_audit, deposited, deposit_amount, estimate_was_approved-eq,
}
use new_builders_stream.Sales.Estimates.Deposit.Rate.{DepositRate, estimate_was_approved_lem}
use new_builders_stream.Sales.Estimates.Signature.{
  sign_estimate, call_approved, approved_row, approve_estimate, reject_estimate,
}
use new_builders_stream.Sales.Estimates.Signature.Approved.{approve_estimate_lem}
use new_builders_stream.Sales.Estimates.Signature.Frozen.{approved_frozen}
use new_builders_stream.Tests.Sample.{session, bookkeeper, start}

abbrev approval : EstimateApproved
approval = record {
  estimate_id = 30;
  project_id = some 5;
  company_id = 2;
  approved_total = some (pos 25000);
  actor_id = some 8;
}

-- What the approval leaves, by its equation.
abbrev drafted : Db
drafted = deposited session approval 5 (deposit_amount session approval 5 (pos 25000) start) start

estimate_was_approved_lem_example :
    ((drafted ≡ start)
      × ((◌≡◌ {A = Option ℕ} (some 5) none) ⊎ (tier_allows session 2 accounting start ≡ false)))
    ⊎ ((project_id : ℕ) × (total : ℤ) × (rate : Decimal) × (some 5 ≡ some project_id)
        × (tier_allows session 2 accounting start ≡ true)
        × (some (pos 25000) ≡ some total)
        × DepositRate session 2 rate start
        × (drafted.invoices
            ≡ the_deposit session approval project_id
                (quantize_cents (times (from_cents total) rate))
                start
              ∷ [])
        × (drafted.audit_log ≡ deposit_audit session approval project_id start ∷ [])
        × (drafted.invoice_payments ≡ [])
        × (drafted.estimates ≡ []))
unfolding tier_allows
estimate_was_approved_lem_example =
    estimate_was_approved_lem session approval (some 5) start drafted
      (estimate_was_approved-eq session approval 5 (pos 25000) start refl refl)

abbrev customer : CurrentUser
customer = record bookkeeper { role = client; user_id = 8; email = "c@example.com" }

abbrev quote : Estimate
quote = record {
  id = 30;
  company_id = 2;
  project_id = some 5;
  lead_id = none;
  markup_profile_id = 1;
  status = EstimateStatus.sent;
  subtotal = some (pos 24000);
  total = some (pos 25000);
  is_snapshotted = false;
  esignature_id = none;
}

abbrev quoted : Db
quoted = record start {
  subscriptions = record { company_id = 1; tier = pro; status = active } ∷ [];
  estimates = quote ∷ [];
  project_clients = record { parent_id = 5; company_id = 2; user_id = 8 } ∷ [];
}

abbrev form : SignatureForm
form = record {
  signer_name = "C";
  signer_email = "c@example.com";
  ip_address = "10.0.0.1";
  artifact_size = 900;
}

-- Every address is taken for the same.
abbrev any_email : String → String → Bool
any_email a b = true

approve_estimate_lem_example :
    (e : Estimate) × (estimate_row session 30 quoted ≡ some e)
    × (is_sent e.status ≡ true)
    × ((not (same_role client client) || any_email "c@example.com" "c@example.com") ≡ true)
    × (approved_row quote 100 ≡ approved_row e 100)
    × ((approve_estimate any_email customer 30 form quoted).1.estimates
        ≡ replace (λ x. x.id) (approved_row e 100) quoted.estimates)
unfolding approve_estimate authorize_module get_estimate_or_404 require_client_access_to_estimate
    is_sent require_signer_is_caller fits_upload sign_estimate capture_esignature
    update_estimate_row write_audit_log publish call_all handlers call_approved
    estimate_was_approved tier_allows materials_were_approved materials add_materials
approve_estimate_lem_example =
    approve_estimate_lem any_email customer 30 form (approved_row quote 100) quoted
      (approve_estimate any_email customer 30 form quoted).1 refl

abbrev signed_off : Db
signed_off = record quoted { estimates = approved_row quote 99 ∷ [] }

approved_frozen_example :
    ((x : HttpError) × (calculate_estimate_totals customer 30 signed_off ≡ (err x, signed_off)))
    × ((x : HttpError) × (delete_estimate customer 30 signed_off ≡ (err x, signed_off)))
    × ((x : HttpError) × (approve_estimate any_email customer 30 form signed_off
          ≡ (err x, signed_off)))
    × ((x : HttpError) × (reject_estimate customer 30 "late" signed_off ≡ (err x, signed_off)))
unfolding estimate_row
approved_frozen_example =
    approved_frozen any_email customer 30 form "late" (approved_row quote 99) signed_off refl refl
      refl
