-- ===== src/Sales/Projects/Completed.antt =====
-- `handle_project_completed` of backend/app/services/project_completed_handler.py: what it writes.
use new_builders_stream.Prelude.{◌+◌, ◌≡◌, ◌&&◌, ◌==◌, none, some, List, [], ◌∷◌, ◌++◌}
use new_builders_stream.Prelude.Int.{ℤ}
use new_builders_stream.Prelude.Table.{count_where}
use new_builders_stream.Models.{Db, Session, Invoice, InvoiceStatus, AuditLog, SyncJob, uuid, text}
use new_builders_stream.Core.Exec.{ok}
use new_builders_stream.Core.Audit.{write_audit_log}
use new_builders_stream.Core.Sync.Laws.{publish_record-eq, sync_jobs, invoice}
use new_builders_stream.Billing.Invoices.{insert_invoice, next_invoice_number}
use new_builders_stream.Sales.Projects.{ProjectCompleted, auto_invoice}

module _ (session : Session) (p : ProjectCompleted) where
  -- The final invoice.
  abbrev pub final_invoice : ℤ → Db → Invoice
  final_invoice remainder db = record {
    id = db.next_id;
    project_id = p.project_id;
    company_id = p.company_id;
    estimate_id = none;
    invoice_number = record {
      year = session.year;
      sequence =
          count_where (λ r. session.visible r.company_id && r.company_id == p.company_id)
            db.invoices
          + 1;
    };
    amount = remainder;
    status = InvoiceStatus.draft;
    due_date = none;
  }

  abbrev pub final_audit : Db → AuditLog
  final_audit db = record {
    company_id = p.company_id;
    actor_id = some p.actor_id;
    action = "invoice.auto_generated";
    entity_type = "invoice";
    entity_id = db.next_id;
    log_metadata = ("trigger", text "project_completed") ∷ ("project_id", uuid p.project_id) ∷ [];
  }

  -- The database after the final invoice, before its event.
  abbrev pub with_final : ℤ → Db → Db
  with_final remainder db = record db {
    invoices = final_invoice remainder db ∷ db.invoices;
    next_id = db.next_id + 1;
    audit_log = final_audit db ∷ db.audit_log;
  }

  abbrev pub final_jobs : ℤ → Db → List SyncJob
  final_jobs remainder db =
      sync_jobs session
        (record { entity_type = "invoice"; entity_id = db.next_id; company_id = p.company_id })
        (with_final remainder db)

  -- The database after the final invoice and its event.
  abbrev pub invoiced : ℤ → Db → Db
  invoiced remainder db = record (with_final remainder db) {
    pending = db.pending ++ final_jobs remainder db;
  }

  pub auto_invoice-eq :
      (remainder : ℤ) (db : Db)
      → auto_invoice session p remainder db ≡ (ok tt, invoiced remainder db)
  unfolding auto_invoice insert_invoice write_audit_log next_invoice_number
  auto_invoice-eq remainder db = rw (publish_record-eq, invoice)
