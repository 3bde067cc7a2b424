-- ===== src/Core/Transaction.antt =====
-- backend/app/core/deps.py (`get_current_user`: the one commit or rollback of a request) and
-- `run_after_commit` of backend/app/core/after_commit.py.
pub mod Laws
use new_builders_stream.Prelude.{ℕ, ◌+◌, Bool, if◌then◌else◌, List, [], ◌∷◌}
use new_builders_stream.Models.{Db, SyncJob}
use new_builders_stream.Core.Exec.{Exec, Result, ok, err}

-- What the queue has received, and how many sends were logged as lost.
pub record Outbox : Type 0 where
  pub sent : List SyncJob
  pub lost : ℕ

-- Each callback in turn; one that raises is logged and the loop goes on. `send` says whether the
-- queue takes a job.
run_callbacks : (SyncJob → Bool) → List SyncJob → Outbox
run_callbacks send [] = record { sent = []; lost = 0 }
run_callbacks send (job ∷ jobs) =
    let rest = run_callbacks send jobs in
    if send job
    then record rest { sent = job ∷ rest.sent }
    else record rest { lost = rest.lost + 1 }

-- `session.info.pop(_PENDING_KEY, [])`, then the callbacks.
pub run_after_commit : (SyncJob → Bool) → Db → Outbox × Db
unfolding run_callbacks
run_after_commit send db = (run_callbacks send db.pending, record db { pending = [] })

-- The response, the database after the request and what was sent.
pub record Response (A : Type 0) : Type 0 where
  pub result : Result A
  pub database : Db
  pub outbox : Outbox

finish : {A : Type 0} → (SyncJob → Bool) → Db → Result A × Db → Response A
unfolding run_after_commit
finish send before (ok a, db) =
    let (outbox, committed) = run_after_commit send db in
    record { result = ok a; database = committed; outbox = outbox }
finish send before (err e, db) = record {
  result = err e;
  database = before;
  outbox = record { sent = []; lost = 0 };
}

-- The route runs in one transaction: `commit` and the callbacks after it, or `rollback`.
pub transaction : {A : Type 0} → (SyncJob → Bool) → Exec A → Db → Response A
unfolding finish
transaction send route db = finish send db (route db)
