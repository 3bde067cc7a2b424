-- ===== src/Core/Sync/Laws.antt =====
-- What backend/app/services/financial_record_sync_handler.py writes.
use new_builders_stream.Prelude.{Bool-cases, inl, inr, ◌≡◌, if◌then◌else◌, List, [], ◌∷◌, ◌++◌, map}
use mathlib.Core.List.{append_assoc, append-nil}
use new_builders_stream.Models.{Db, Session, SyncJob, IntegrationConnection, integrations}
use new_builders_stream.Core.Exec.{ok, resume}
use new_builders_stream.Core.Access.{tier_allows}
use new_builders_stream.Core.Events.{
  Event, invoice_created, expense_created, bill_created, invoice_payment_recorded,
}
use new_builders_stream.Core.Sync.{
  RecordCreated, connections_of, job_for, enqueue_each, financial_record_created, publish_record,
}

-- The events of a financial record.
pub data IsRecordEvent : Event → Type 0 where
  invoice : IsRecordEvent invoice_created
  expense : IsRecordEvent expense_created
  bill : IsRecordEvent bill_created
  payment : IsRecordEvent invoice_payment_recorded

-- A job for each visible connection of the company, if its plan has the integrations.
pub sync_jobs : Session → RecordCreated → Db → List SyncJob
sync_jobs session p db =
    if tier_allows session p.company_id integrations db
    then map (job_for p) (connections_of session p.company_id db)
    else []

enqueue_each-eq :
    (p : RecordCreated) (cs : List IntegrationConnection) (db : Db)
    → enqueue_each p cs db ≡ (ok tt, record db { pending = db.pending ++ map (job_for p) cs })
unfolding enqueue_each
enqueue_each-eq p [] db = rw append-nil
enqueue_each-eq p (c ∷ cs) db =
    rw (enqueue_each-eq p cs (record db { pending = db.pending ++ job_for p c ∷ [] }))
      (rw append_assoc)

pub financial_record_created-eq :
    (session : Session) (p : RecordCreated) (db : Db)
    → financial_record_created session p db
      ≡ (ok tt, record db { pending = db.pending ++ sync_jobs session p db })
unfolding financial_record_created sync_jobs
financial_record_created-eq session p db =
    elim (Bool-cases (tier_allows session p.company_id integrations db)) [
      | inl on ↦ rw on (enqueue_each-eq p (connections_of session p.company_id db) db)
      | inr off ↦ rw (off, append-nil)
    ]

pub publish_record-eq :
    (session : Session) (event : Event) (p : RecordCreated) (db : Db)
    → IsRecordEvent event
    → publish_record session event p db
      ≡ (ok tt, record db { pending = db.pending ++ sync_jobs session p db })
unfolding publish_record
publish_record-eq session event p db invoice = rw (financial_record_created-eq, resume)
publish_record-eq session event p db expense = rw (financial_record_created-eq, resume)
publish_record-eq session event p db bill = rw (financial_record_created-eq, resume)
publish_record-eq session event p db payment = rw (financial_record_created-eq, resume)
