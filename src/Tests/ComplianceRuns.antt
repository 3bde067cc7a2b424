-- ===== src/Tests/ComplianceRuns.antt =====
-- The expiry scan of a small tenant.
use new_builders_stream.Prelude.{ℕ, ◌≤◌, ◌≡◌, Bool, true, some, [], ◌∷◌, arith}
use new_builders_stream.Prelude.Int.{◌-ℤ◌}
use new_builders_stream.Prelude.Table.{count_where}
use new_builders_stream.Compliance.Expiry.{
  ScanTables, seven_days, thirty_days, threshold_days, is_fired, is_due, check_compliance_expiry,
}
use new_builders_stream.Compliance.Expiry.Fired.{check_compliance_expiry_lem}
use new_builders_stream.Compliance.Expiry.Unique.{times_fired, check_compliance_expiry_once}

abbrev plain : ℕ → Bool
plain company_id = true

-- Two documents: one has six days left and a notification, one has forty days left.
abbrev small_tenant : ScanTables
small_tenant = record {
  documents =
      record {
        id = 1;
        company_id = 4;
        subcontractor_id = 9;
        doc_type = "insurance";
        expires_on = 106;
      }
      ∷ record {
        id = 2;
        company_id = 4;
        subcontractor_id = 9;
        doc_type = "license";
        expires_on = 140;
      }
      ∷ [];
  notifications =
      record { company_id = 4; compliance_document_id = 1; threshold = thirty_days } ∷ [];
  subcontractors =
      record { id = 9; name = "Roofer"; contact_email = some "roofer@example.com" } ∷ [];
  companies = record { company_id = 4; name = some "Builder" } ∷ [];
  branding = [];
}

abbrev scanned : ScanTables
scanned = (check_compliance_expiry plain 100 (λ s. s) small_tenant).0

check_compliance_expiry_lem_example :
    is_fired 1 (threshold_days seven_days) scanned.notifications ≡ true
unfolding is_fired is_due ◌-ℤ◌
check_compliance_expiry_lem_example =
    check_compliance_expiry_lem plain 100 (λ s. s) small_tenant 1 seven_days

fired_once : times_fired 1 (threshold_days thirty_days) small_tenant.notifications ≤ 1
unfolding times_fired count_where
fired_once = omega arith

check_compliance_expiry_once_example :
    times_fired 1 (threshold_days thirty_days) scanned.notifications ≤ 1
check_compliance_expiry_once_example =
    check_compliance_expiry_once plain 100 (λ s. s) small_tenant 1 thirty_days fired_once
