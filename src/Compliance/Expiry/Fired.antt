-- ===== src/Compliance/Expiry/Fired.antt =====
-- Which thresholds of which documents have fired after a scan.
use new_builders_stream.Prelude.{
  ℕ, ◌≡◌, refl, Bool, ◌==◌, ◌&&◌, ◌||◌, String, List, [], ◌∷◌, any, arith,
}
use new_builders_stream.Compliance.Expiry.{
  Threshold, thirty_days, fourteen_days, seven_days, valid_thresholds, threshold_days,
  ComplianceDocument, ScanTables, Scan, is_fired, is_due, notify, consider, each_threshold,
  scan_document, scan, check_compliance_expiry,
}

module _ (tier_allows : ℕ → Bool) (today : ℕ) (strip : String → String) (tables : ScanTables) where
  is_fired-notify :
      (d : ComplianceDocument) (t : Threshold) (i days : ℕ) (s : Scan)
      → is_fired i days (notify tier_allows today strip tables d t s).notifications
        ≡ ((d.id == i && threshold_days t == days) || is_fired i days s.notifications)
  unfolding is_fired notify
  is_fired-notify d t i days s = refl

  -- The threshold of the document that is considered, if it is due.
  abbrev pub hits : ComplianceDocument → ℕ → ℕ → Threshold → Bool
  hits d i days t = (d.id == i && threshold_days t == days) && is_due today d t

  is_fired-consider :
      (d : ComplianceDocument) (t : Threshold) (i days : ℕ) (s : Scan)
      → is_fired i days (consider tier_allows today strip tables d t s).notifications
        ≡ (is_fired i days s.notifications || hits d i days t)
  unfolding consider
  is_fired-consider d t i days s = ground (arith, is_fired-notify d t i days s)

  is_fired-each :
      (d : ComplianceDocument) (ts : List Threshold) (i days : ℕ) (s : Scan)
      → is_fired i days (each_threshold tier_allows today strip tables d ts s).notifications
        ≡ (is_fired i days s.notifications || any (hits d i days) ts)
  unfolding each_threshold
  is_fired-each d [] i days s = ground arith
  is_fired-each d (t ∷ ts) i days s = ground (
    arith,
    is_fired-each d ts i days (consider tier_allows today strip tables d t s),
    is_fired-consider d t i days s,
  )

  is_fired-scan_document :
      (d : ComplianceDocument) (i : ℕ) (t : Threshold) (s : Scan)
      → is_fired i
          (threshold_days t)
          (scan_document tier_allows today strip tables d s).notifications
        ≡ (is_fired i (threshold_days t) s.notifications
            || (d.id == i && (tier_allows d.company_id && is_due today d t)))
  unfolding scan_document
  is_fired-scan_document d i thirty_days s = ground (arith, is_fired-each d valid_thresholds i 30 s)
  is_fired-scan_document d i fourteen_days s =
      ground (arith, is_fired-each d valid_thresholds i 14 s)
  is_fired-scan_document d i seven_days s = ground (arith, is_fired-each d valid_thresholds i 7 s)

  -- A document with this identifier is due, in a company that has the module.
  abbrev pub due_for : ℕ → Threshold → ComplianceDocument → Bool
  due_for i t d = d.id == i && (tier_allows d.company_id && is_due today d t)

  pub is_fired-scan :
      (ds : List ComplianceDocument) (i : ℕ) (t : Threshold) (s : Scan)
      → is_fired i (threshold_days t) (scan tier_allows today strip tables ds s).notifications
        ≡ (is_fired i (threshold_days t) s.notifications || any (due_for i t) ds)
  unfolding scan
  is_fired-scan [] i t s = ground arith
  is_fired-scan (d ∷ ds) i t s = ground (
    arith,
    is_fired-scan ds i t (scan_document tier_allows today strip tables d s),
    is_fired-scan_document d i t s,
  )

  -- After the task, a threshold of a document has fired exactly if it had before, or the document is
  -- in a company that has the compliance module and its days until expiry are at most those of the
  -- threshold.
  pub check_compliance_expiry_lem :
      (i : ℕ) (t : Threshold)
      → is_fired i
          (threshold_days t)
          (check_compliance_expiry tier_allows today strip tables).0.notifications
        ≡ (is_fired i (threshold_days t) tables.notifications || any (due_for i t) tables.documents)
  unfolding check_compliance_expiry
  check_compliance_expiry_lem i t = is_fired-scan tables.documents i t _
