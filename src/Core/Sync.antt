-- ===== src/Core/Sync.antt =====
-- backend/app/services/financial_record_sync_handler.py, and `enqueue_after_commit` of
-- backend/app/core/after_commit.py: a new financial record is queued for each accounting
-- connection of its company, once the request has committed.
pub mod Laws
pub mod Spares
use new_builders_stream.Prelude.{
  ℕ, String, ◌==◌, ◌&&◌, not, if◌then◌else◌, List, [], ◌∷◌, ◌++◌, map,
}
use new_builders_stream.Prelude.Table.{select}
use new_builders_stream.Models.{Db, Session, SyncJob, IntegrationConnection, integrations}
use new_builders_stream.Core.Exec.{Exec, pure, modify, gets, ◌>>=◌, ◌>>◌}
use new_builders_stream.Core.Access.{tier_allows}
use new_builders_stream.Core.Events.{Event, EventHandler, handle_financial_record_created, publish}

-- The payload of INVOICE_CREATED, EXPENSE_CREATED, BILL_CREATED and INVOICE_PAYMENT_RECORDED.
pub record RecordCreated : Type 0 where
  pub entity_type : String
  pub entity_id : ℕ
  pub company_id : ℕ

enqueue_after_commit : SyncJob → Exec (Unit {0})
enqueue_after_commit job = modify (λ db. record db { pending = db.pending ++ job ∷ [] })

-- The connections of the company, as the tenant's policy shows them.
connections_of : Session → ℕ → Db → List IntegrationConnection
unfolding select
connections_of session company_id db =
    select (λ c. session.visible c.company_id && c.company_id == company_id) db.connections

abbrev job_for : RecordCreated → IntegrationConnection → SyncJob
job_for p connection = record {
  connection_id = connection.id;
  entity_type = p.entity_type;
  entity_id = p.entity_id;
}

enqueue_each : RecordCreated → List IntegrationConnection → Exec (Unit {0})
unfolding enqueue_after_commit
enqueue_each p [] = pure tt
enqueue_each p (c ∷ cs) = enqueue_after_commit (job_for p c) >> enqueue_each p cs

pub financial_record_created : Session → RecordCreated → Exec (Unit {0})
unfolding enqueue_each connections_of
financial_record_created session p db =
    if not (tier_allows session p.company_id integrations db)
    then (pure tt db)
    else enqueue_each p (connections_of session p.company_id db) db

-- No other handler is registered for these events.
call_record : Session → EventHandler → RecordCreated → Exec (Unit {0})
unfolding financial_record_created
call_record session handle_financial_record_created p = financial_record_created session p
call_record session _ p = pure tt

-- `await publish(event, session=…, entity_type=…, entity_id=…, company_id=…)`.
unfoldable pub publish_record : Session → Event → RecordCreated → Exec (Unit {0})
unfolding call_record publish
publish_record session event p = publish event (call_record session) p
