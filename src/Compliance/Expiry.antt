-- ===== src/Compliance/Expiry.antt =====
-- backend/app/tasks/compliance_expiry.py, over all tenants, with sender_name_for of
-- backend/app/services/email_sender.py and the columns that it reads. Identifiers and times of new
-- rows are left out; the caches of the loop hold what the queries would return again.
pub mod Fired
pub mod Unique
pub mod Twice
use package.text.Mathlib.Text.{◌==◌ as str_eq}
use new_builders_stream.Prelude.{
  ℕ, ◌==◌, ◌&&◌, not, Bool, true, false, if◌then◌else◌, Option, none, some, String, List, [], ◌∷◌,
  ◌++◌, any,
}
use new_builders_stream.Prelude.Int.{ℤ, pos, ◌-ℤ◌, ltb_ℤ}
use new_builders_stream.Prelude.Table.{find}

-- VALID_THRESHOLDS.
pub data Threshold : Type 0 where
  thirty_days fourteen_days seven_days : Threshold

abbrev pub valid_thresholds : List Threshold
valid_thresholds = thirty_days ∷ fourteen_days ∷ seven_days ∷ []

-- `int(threshold.split("_", 1)[0])`; it tells the thresholds apart.
abbrev pub threshold_days : Threshold → ℕ
threshold_days thirty_days = 30
threshold_days fourteen_days = 14
threshold_days seven_days = 7

pub record ComplianceDocument : Type 0 where
  pub id : ℕ
  pub company_id : ℕ
  pub subcontractor_id : ℕ
  pub doc_type : String
  pub expires_on : ℕ

pub record ComplianceNotification : Type 0 where
  pub company_id : ℕ
  pub compliance_document_id : ℕ
  pub threshold : Threshold

-- The columns of `subcontractors`, `companies` and `company_branding` that name a message.
pub record Contact : Type 0 where
  pub id : ℕ
  pub name : String
  pub contact_email : Option String

pub record NamedRow : Type 0 where
  pub company_id : ℕ
  pub name : Option String

pub record ExpiryMessage : Type 0 where
  pub to_email : String
  pub subcontractor_name : String
  pub company_name : String
  pub doc_type : String
  pub expires_on : ℕ
  pub threshold : Threshold
  pub from_name : String
  pub company_id : ℕ

pub record ScanTables : Type 0 where
  pub documents : List ComplianceDocument
  pub notifications : List ComplianceNotification
  pub subcontractors : List Contact
  pub companies : List NamedRow
  pub branding : List NamedRow

-- What the loop has added, and the messages that wait for the commit.
pub record Scan : Type 0 where
  pub notifications : List ComplianceNotification
  pub pending_emails : List ExpiryMessage

-- `value or default` of a text.
unfoldable pub text_or : Option String → String → String
text_or none default = default
text_or (some text) default = if str_eq text "" then default else text

unfoldable pub name_of : ℕ → List NamedRow → Option String
name_of company_id rows = elim (find (λ r. r.company_id) company_id rows) [
  | none ↦ none
  | some r ↦ r.name
]

-- `(document.id, threshold) in already_fired`: the pairs of the rows, those of this run too.
unfoldable pub is_fired : ℕ → ℕ → List ComplianceNotification → Bool
is_fired document_id days rows =
    any (λ n. n.compliance_document_id == document_id && threshold_days n.threshold == days) rows

-- `days_until_expiry <= threshold_days`; the days are negative for an expired document.
unfoldable pub is_due : ℕ → ComplianceDocument → Threshold → Bool
is_due today document threshold =
    not (ltb_ℤ (pos (threshold_days threshold)) (pos document.expires_on -ℤ pos today))

-- `tier_allows(session, company_id, "compliance")`, the day, and `str.strip`.
module _ (tier_allows : ℕ → Bool) (today : ℕ) (strip : String → String) (tables : ScanTables) where
  unfoldable pub sender_name_for : ℕ → String → String
  unfolding text_or
  sender_name_for company_id company_name =
      text_or (some (strip (text_or (name_of company_id tables.branding) ""))) company_name

  unfoldable pub message : ComplianceDocument → Threshold → Contact → String → ExpiryMessage
  message document threshold contact email =
      let company_name = text_or (name_of document.company_id tables.companies) "Builders Stream" in
      record {
        to_email = email;
        subcontractor_name = contact.name;
        company_name = company_name;
        doc_type = document.doc_type;
        expires_on = document.expires_on;
        threshold = threshold;
        from_name = sender_name_for document.company_id company_name;
        company_id = document.company_id;
      }

  -- No subcontractor or no address: the row is written without a message.
  unfoldable pub messages_for : ComplianceDocument → Threshold → List ExpiryMessage
  messages_for document threshold =
      elim (find (λ c. c.id) document.subcontractor_id tables.subcontractors) [
        | none ↦ []
        | some contact ↦ elim contact.contact_email [
          | none ↦ []
          | some email ↦
              if str_eq email "" then [] else message document threshold contact email ∷ []
        ]
      ]

  unfoldable pub notify : ComplianceDocument → Threshold → Scan → Scan
  notify document threshold s = record {
    notifications =
        record {
          company_id = document.company_id;
          compliance_document_id = document.id;
          threshold = threshold;
        }
        ∷ s.notifications;
    pending_emails = s.pending_emails ++ messages_for document threshold;
  }

  unfoldable pub consider : ComplianceDocument → Threshold → Scan → Scan
  consider document threshold s =
      if not (is_due today document threshold)
      then s
      else if is_fired document.id (threshold_days threshold) s.notifications
      then s
      else notify document threshold s

  unfoldable pub each_threshold : ComplianceDocument → List Threshold → Scan → Scan
  each_threshold document [] s = s
  each_threshold document (t ∷ ts) s = each_threshold document ts (consider document t s)

  unfoldable pub scan_document : ComplianceDocument → Scan → Scan
  scan_document document s =
      if tier_allows document.company_id then each_threshold document valid_thresholds s else s

  unfoldable pub scan : List ComplianceDocument → Scan → Scan
  scan [] s = s
  scan (d ∷ ds) s = scan ds (scan_document d s)

  -- The tables after the commit, and the messages that are sent after it.
  unfoldable pub check_compliance_expiry : ScanTables × List ExpiryMessage
  check_compliance_expiry =
      let s =
        scan tables.documents
          (record { notifications = tables.notifications; pending_emails = [] }) in
      (record tables { notifications = s.notifications }, s.pending_emails)
