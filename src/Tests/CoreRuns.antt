-- ===== src/Tests/CoreRuns.antt =====
-- Requests, events, plans and rounding at concrete data.
use new_builders_stream.Prelude.{ℕ, String, ◌+◌, ◌≡◌, ◌⊎◌, refl, [], ◌∷◌, length}
use new_builders_stream.Prelude.Table.{select}
use new_builders_stream.Models.{Db, active, accounting, pro, admin, accountant, SyncJob}
use new_builders_stream.Core.Exec.{Exec, ok, err, conflict, forbidden, raise, modify}
use new_builders_stream.Core.Access.{post, authorize_module}
use new_builders_stream.Core.Access.Conditions.{Admitted}
use new_builders_stream.Core.Access.Admission.{authorize_module_lem}
use new_builders_stream.Core.Events.{EventHandler, handle_estimate_approved}
use new_builders_stream.Core.Sync.{RecordCreated}
use new_builders_stream.Core.Transaction.{transaction}
use new_builders_stream.Core.Transaction.Laws.{transaction_delivers}
use new_builders_stream.Tests.Sample.{bookkeeper, start, deliver}

authorize_module_lem_example :
    ((authorize_module bookkeeper (admin ∷ accountant ∷ []) post accounting start ≡ (ok tt, start))
      × Admitted bookkeeper (admin ∷ accountant ∷ []) post accounting start)
    ⊎ ((detail : String) × (authorize_module bookkeeper
            (admin ∷ accountant ∷ [])
            post
            accounting
            start
          ≡ (err (forbidden detail), start))
        × ¬ Admitted bookkeeper (admin ∷ accountant ∷ []) post accounting start)
authorize_module_lem_example =
    authorize_module_lem bookkeeper (admin ∷ accountant ∷ []) post accounting start

abbrev on_pro : Db
on_pro = record start {
  subscriptions = record { company_id = 1; tier = pro; status = active } ∷ [];
}

-- The materials fail after the deposit invoice.
abbrev bom_fails : EventHandler → ℕ → Exec (Unit {0})
bom_fails handle_estimate_approved n = modify (λ db. record db { next_id = db.next_id + n })
bom_fails _ n = raise (conflict "no catalog")

abbrev new_record : RecordCreated
new_record = record { entity_type = "invoice"; entity_id = 10; company_id = 2 }

abbrev job : SyncJob
job = record { connection_id = 40; entity_type = "invoice"; entity_id = 10 }

abbrev enqueued : Exec (Unit {0})
enqueued = modify (λ db. record db { pending = job ∷ [] })

transaction_delivers_example :
    let r = transaction deliver enqueued start in
    (r.result ≡ ok tt)
    × (r.database ≡ record start { pending = [] })
    × (r.outbox.sent ≡ select deliver (job ∷ []))
    × (length r.outbox.sent + r.outbox.lost ≡ 1)
transaction_delivers_example =
    transaction_delivers deliver enqueued tt start (record start { pending = job ∷ [] }) refl
