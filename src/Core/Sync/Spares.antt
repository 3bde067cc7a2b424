-- ===== src/Core/Sync/Spares.antt =====
-- What a request writes beside its own tables: an identifier, the audit log and the queue.
use new_builders_stream.Prelude.{ℕ, String, ◌≡◌, refl, Option, List, arith}
use new_builders_stream.Models.{Db, Session, AuditLog, SyncJob, MetaValue}
use new_builders_stream.Core.Exec.{uuid4}
use new_builders_stream.Core.Exec.Spares.{Spares, Spares-modify}
use new_builders_stream.Core.Audit.{write_audit_log}
use new_builders_stream.Core.Events.{Event}
use new_builders_stream.Core.Sync.{RecordCreated, publish_record}
use new_builders_stream.Core.Sync.Laws.{publish_record-eq, IsRecordEvent}

module _ {T : Type 0} (tables : Db → T) where
  -- The tables are others than those three.
  pub record Apart : Type 0 where
    pub of_ids : (db : Db) (n : ℕ) → tables (record db { next_id = n }) ≡ tables db
    pub of_audit :
        (db : Db) (rows : List AuditLog) → tables (record db { audit_log = rows }) ≡ tables db
    pub of_queue :
        (db : Db) (jobs : List SyncJob) → tables (record db { pending = jobs }) ≡ tables db

  pub Spares-uuid4 : Apart → Spares tables uuid4
  Spares-uuid4 h = record { kept = λ db. h.of_ids db _; forward = λ db. omega arith }

  pub Spares-audit :
      Apart
      → (c : ℕ) (actor : Option ℕ) (action entity : String) (i : ℕ)
        (metadata : List (String × MetaValue))
      → Spares tables (write_audit_log c actor action entity i metadata)
  unfolding write_audit_log
  Spares-audit h c actor action entity i metadata =
      Spares-modify tables _ (λ db. h.of_audit db _) (λ db. refl)

  pub Spares-publish :
      Apart
      → (session : Session) (event : Event) (p : RecordCreated) → IsRecordEvent event
      → Spares tables (publish_record session event p)
  Spares-publish h session event p r = record {
    kept = λ db. rw (publish_record-eq session event p db r) (h.of_queue db _);
    forward = λ db. rw (publish_record-eq session event p db r) (omega arith);
  }
