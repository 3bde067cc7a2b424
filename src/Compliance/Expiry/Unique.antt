-- ===== src/Compliance/Expiry/Unique.antt =====
-- The unique constraint on (compliance_document_id, threshold) is never met by an insert.
use new_builders_stream.Prelude.{
  ℕ, ◌≤◌, ◌≡◌, refl, Bool, false, ◌==◌, ◌&&◌, String, List, [], ◌∷◌, arith,
}
use new_builders_stream.Prelude.Table.{count_where}
use new_builders_stream.Compliance.Expiry.{
  Threshold, valid_thresholds, threshold_days, ComplianceDocument, ComplianceNotification,
  ScanTables, Scan, is_fired, notify, consider, each_threshold, scan_document, scan,
  check_compliance_expiry,
}

-- How often a threshold of a document has fired.
unfoldable pub times_fired : ℕ → ℕ → List ComplianceNotification → ℕ
unfolding count_where
times_fired i days rows =
    count_where (λ n. n.compliance_document_id == i && threshold_days n.threshold == days) rows

not_fired :
    (i days : ℕ) (rows : List ComplianceNotification)
    → is_fired i days rows ≡ false
    → times_fired i days rows ≡ 0
unfolding is_fired times_fired count_where
not_fired i days [] h = refl
not_fired i days (n ∷ rows) h = ground (arith, not_fired i days rows)

module _ (tier_allows : ℕ → Bool) (today : ℕ) (strip : String → String) (tables : ScanTables) where
  module _ (i days : ℕ) where
    times_fired-notify :
        (d : ComplianceDocument) (t : Threshold) (s : Scan)
        → is_fired d.id (threshold_days t) s.notifications ≡ false
        → times_fired i days s.notifications ≤ 1
        → times_fired i days (notify tier_allows today strip tables d t s).notifications ≤ 1
    unfolding notify times_fired count_where
    times_fired-notify d t s new h =
        ground (arith, not_fired d.id (threshold_days t) s.notifications new)

    times_fired-consider :
        (d : ComplianceDocument) (t : Threshold) (s : Scan)
        → times_fired i days s.notifications ≤ 1
        → times_fired i days (consider tier_allows today strip tables d t s).notifications ≤ 1
    unfolding consider
    times_fired-consider d t s h = ground (arith, times_fired-notify d t s)

    times_fired-each :
        (d : ComplianceDocument) (ts : List Threshold) (s : Scan)
        → times_fired i days s.notifications ≤ 1
        → times_fired i days (each_threshold tier_allows today strip tables d ts s).notifications
          ≤ 1
    unfolding each_threshold
    times_fired-each d [] s h = h
    times_fired-each d (t ∷ ts) s h =
        times_fired-each d ts (consider tier_allows today strip tables d t s)
          (times_fired-consider d t s h)

    times_fired-scan_document :
        (d : ComplianceDocument) (s : Scan)
        → times_fired i days s.notifications ≤ 1
        → times_fired i days (scan_document tier_allows today strip tables d s).notifications ≤ 1
    unfolding scan_document
    times_fired-scan_document d s h = ground (arith, times_fired-each d valid_thresholds s h)

    times_fired-scan :
        (ds : List ComplianceDocument) (s : Scan)
        → times_fired i days s.notifications ≤ 1
        → times_fired i days (scan tier_allows today strip tables ds s).notifications ≤ 1
    unfolding scan
    times_fired-scan [] s h = h
    times_fired-scan (d ∷ ds) s h =
        times_fired-scan ds (scan_document tier_allows today strip tables d s)
          (times_fired-scan_document d s h)

  -- A threshold of a document that has fired at most once before the task has fired at most once
  -- after it.
  pub check_compliance_expiry_once :
      (i : ℕ) (t : Threshold)
      → times_fired i (threshold_days t) tables.notifications ≤ 1
      → times_fired i
          (threshold_days t)
          (check_compliance_expiry tier_allows today strip tables).0.notifications
        ≤ 1
  unfolding check_compliance_expiry
  check_compliance_expiry_once i t h = times_fired-scan i (threshold_days t) tables.documents _ h
