-- ===== src/Sales/Estimates/Deposit/Exact.antt =====
-- What the approval handler of backend/app/services/estimate_approved_handler.py writes.
use new_builders_stream.Prelude.{
  ℕ, ◌+◌, ◌≡◌, ap, ◌∙◌, if◌then◌else◌, Bool, true, ◌&&◌, ◌==◌, none, some, [], ◌∷◌, ◌++◌,
}
use new_builders_stream.Prelude.Int.{ℤ}
use new_builders_stream.Prelude.Table.{count_where}
use new_builders_stream.Money.{from_cents, times, quantize_cents}
use new_builders_stream.Models.{Db, Session, accounting, Invoice, InvoiceStatus, AuditLog, uuid}
use new_builders_stream.Core.Exec.{Exec, ok, pure}
use new_builders_stream.Core.Access.{tier_allows}
use new_builders_stream.Core.Audit.{write_audit_log}
use new_builders_stream.Core.Sync.Laws.{publish_record-eq, sync_jobs, invoice}
use new_builders_stream.Billing.Invoices.{insert_invoice, next_invoice_number}
use new_builders_stream.Sales.Estimates.Deposit.{
  EstimateApproved, resolve_financial_settings, deposit_invoice, deposit_of_total,
  estimate_was_approved,
}

module _ (session : Session) (p : EstimateApproved) (project_id : ℕ) where
  abbrev pub the_deposit : ℤ → Db → Invoice
  the_deposit amount db = record {
    id = db.next_id;
    project_id = project_id;
    company_id = p.company_id;
    estimate_id = some p.estimate_id;
    invoice_number = record {
      year = session.year;
      sequence =
          count_where (λ r. session.visible r.company_id && r.company_id == p.company_id)
            db.invoices
          + 1;
    };
    amount = amount;
    status = InvoiceStatus.draft;
    due_date = none;
  }

  abbrev pub deposit_audit : Db → AuditLog
  deposit_audit db = record {
    company_id = p.company_id;
    actor_id = p.actor_id;
    action = "invoice.auto_generated";
    entity_type = "invoice";
    entity_id = db.next_id;
    log_metadata = ("estimate_id", uuid p.estimate_id) ∷ [];
  }

  -- The database after the deposit invoice, before its event.
  abbrev pub with_deposit : ℤ → Db → Db
  with_deposit amount db = record db {
    invoices = the_deposit amount db ∷ db.invoices;
    next_id = db.next_id + 1;
    audit_log = deposit_audit db ∷ db.audit_log;
  }

  abbrev pub deposited : ℤ → Db → Db
  deposited amount db = record (with_deposit amount db) {
    pending =
        db.pending
        ++ sync_jobs session
            (record { entity_type = "invoice"; entity_id = db.next_id; company_id = p.company_id })
            (with_deposit amount db);
  }

  pub deposit_invoice-eq :
      (amount : ℤ) (db : Db)
      → deposit_invoice session p project_id amount db ≡ (ok tt, deposited amount db)
  unfolding deposit_invoice insert_invoice write_audit_log next_invoice_number
  deposit_invoice-eq amount db = rw (publish_record-eq, invoice)

  abbrev pub deposit_amount : ℤ → Db → ℤ
  deposit_amount total db = quantize_cents (
      times (from_cents total)
        (resolve_financial_settings session p.company_id db).deposit_percentage)

  pub deposit_of_total-eq :
      (total : ℤ) (db : Db)
      → deposit_of_total session p project_id (some total) db
        ≡ (ok tt, deposited (deposit_amount total db) db)
  unfolding deposit_of_total
  deposit_of_total-eq total db = deposit_invoice-eq (deposit_amount total db) db

  pub estimate_was_approved-eq :
      (total : ℤ) (db : Db)
      → p.approved_total ≡ some total
      → tier_allows session p.company_id accounting db ≡ true
      → estimate_was_approved session p (some project_id) db
        ≡ (ok tt, deposited (deposit_amount total db) db)
  unfolding estimate_was_approved
  estimate_was_approved-eq total db has allowed =
      allows (deposit_of_total session p project_id p.approved_total) allowed
      ∙ ap (λ o. deposit_of_total session p project_id o db) has
      ∙ deposit_of_total-eq total db
    where
      allows : {b : Bool} (m : Exec (Unit {0})) → b ≡ true → (if b then m else pure tt) db ≡ m db
      allows {b} m e = rw e
