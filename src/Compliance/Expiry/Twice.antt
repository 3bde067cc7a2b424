-- ===== src/Compliance/Expiry/Twice.antt =====
-- A second run on the same day finds nothing to do.
use new_builders_stream.Prelude.{
  ℕ, ◌≡◌, refl, ap, ◌∙◌, Bool, true, Bool-cases, inl, inr, not, ◌&&◌, ◌||◌, String, List, [], ◌∷◌,
  All, arith,
}
use new_builders_stream.Compliance.Expiry.{
  Threshold, thirty_days, fourteen_days, seven_days, threshold_days, ComplianceDocument,
  ComplianceNotification, ScanTables, Scan, is_fired, is_due, consider, each_threshold,
  scan_document, scan, check_compliance_expiry,
}
use new_builders_stream.Compliance.Expiry.Fired.{is_fired-scan}

module _ (tier_allows : ℕ → Bool) (today : ℕ) (strip : String → String) (tables : ScanTables) where
  -- Nothing is left to do for a threshold, and for a document.
  settled : ComplianceDocument → Threshold → List ComplianceNotification → Bool
  settled d t rows =
      not (tier_allows d.company_id && is_due today d t) || is_fired d.id (threshold_days t) rows

  all_settled : ComplianceDocument → List ComplianceNotification → Bool
  all_settled d rows =
      settled d thirty_days rows && (settled d fourteen_days rows && settled d seven_days rows)

  consider_settled :
      (d : ComplianceDocument) (t : Threshold) (s : Scan)
      → tier_allows d.company_id ≡ true
      → settled d t s.notifications ≡ true
      → consider tier_allows today strip tables d t s ≡ s
  unfolding consider settled
  consider_settled d t s allowed h = ground arith

  scan_document_settled :
      (d : ComplianceDocument) (s : Scan)
      → all_settled d s.notifications ≡ true
      → scan_document tier_allows today strip tables d s ≡ s
  unfolding scan_document each_threshold all_settled
  scan_document_settled d s h = elim (Bool-cases (tier_allows d.company_id)) [
    | inl e ↦ ground (
      arith,
      consider_settled d thirty_days s e,
      consider_settled d fourteen_days s e,
      consider_settled d seven_days s e,
    )
    | inr e ↦ ground arith
  ]

  scan_settled :
      (ds : List ComplianceDocument) (s : Scan)
      → All (λ d. all_settled d s.notifications ≡ true) ds
      → scan tier_allows today strip tables ds s ≡ s
  unfolding scan
  scan_settled [] s h = refl
  scan_settled (d ∷ ds) s h =
      ap (scan tier_allows today strip tables ds) (scan_document_settled d s h.0)
      ∙ scan_settled ds s h.1

  head_settled :
      (d : ComplianceDocument) (ds : List ComplianceDocument) (t : Threshold) (s : Scan)
      → settled d t (scan tier_allows today strip tables (d ∷ ds) s).notifications ≡ true
  unfolding settled
  head_settled d ds t s =
      ground (arith, is_fired-scan tier_allows today strip tables (d ∷ ds) d.id t s)

  scan-settles :
      (ds : List ComplianceDocument) (s : Scan)
      → All (λ d. all_settled d (scan tier_allows today strip tables ds s).notifications ≡ true) ds
  unfolding all_settled scan
  scan-settles [] s = tt
  scan-settles (d ∷ ds) s = (
    ground (
      arith,
      head_settled d ds thirty_days s,
      head_settled d ds fourteen_days s,
      head_settled d ds seven_days s,
    ),
    scan-settles ds (scan_document tier_allows today strip tables d s),
  )

-- A second run on the same day adds no row and sends no message.
pub check_compliance_expiry_idempotent :
    (tier_allows : ℕ → Bool) (today : ℕ) (strip : String → String) (tables : ScanTables)
    → let tables' = (check_compliance_expiry tier_allows today strip tables).0 in
      check_compliance_expiry tier_allows today strip tables' ≡ (tables', [])
unfolding check_compliance_expiry settled all_settled
check_compliance_expiry_idempotent tier_allows today strip tables =
    let begun : Scan = record { notifications = tables.notifications; pending_emails = [] } in
    let first = scan tier_allows today strip tables tables.documents begun in
    let tables' : ScanTables = record tables { notifications = first.notifications } in
    ap (λ (s : Scan). (record tables' { notifications = s.notifications }, s.pending_emails))
      (scan_settled tier_allows today strip tables' tables.documents
        (record { notifications = first.notifications; pending_emails = [] })
        (scan-settles tier_allows today strip tables tables.documents begun))
