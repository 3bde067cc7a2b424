-- ===== src/Core/Audit.antt =====
-- backend/app/services/audit.py.
use new_builders_stream.Prelude.{ℕ, String, Option, List, ◌∷◌}
use new_builders_stream.Models.{MetaValue}
use new_builders_stream.Core.Exec.{Exec, modify}

-- `session.add(AuditLog(...)); await session.flush()`.
unfoldable pub write_audit_log :
    ℕ → Option ℕ → String → String → ℕ → List (String × MetaValue) → Exec (Unit {0})
write_audit_log company_id actor_id action entity_type entity_id metadata = modify λ db. record db {
  audit_log =
      record {
        company_id = company_id;
        actor_id = actor_id;
        action = action;
        entity_type = entity_type;
        entity_id = entity_id;
        log_metadata = metadata;
      }
      ∷ db.audit_log;
}
