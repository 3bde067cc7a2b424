-- ===== src/Core/Transaction/Laws.antt =====
-- Requests that raise and requests that return: backend/app/core/deps.py and after_commit.py.
use new_builders_stream.Prelude.{◌≡◌, refl, ◌+◌, Bool, List, [], ◌∷◌, arith, length}
use new_builders_stream.Prelude.Table.{select}
use new_builders_stream.Models.{Db, SyncJob}
use new_builders_stream.Core.Exec.{Exec, HttpError, Result, ok, err}
use new_builders_stream.Core.Transaction.{run_callbacks, finish, transaction}

-- A request that raises leaves the database as it was and sends nothing, whatever it wrote or
-- enqueued before it raised.
pub transaction_rolls_back :
    {A : Type 0} (send : SyncJob → Bool) (route : Exec A) (e : HttpError) (db db' : Db)
    → route db ≡ (err e, db')
    → let r = transaction send route db in
      (r.result ≡ err e) × (r.database ≡ db) × (r.outbox.sent ≡ []) × (r.outbox.lost ≡ 0)
unfolding transaction
transaction_rolls_back send route e db db' h = rw h (refl, refl, refl, refl)

run_callbacks-sent :
    (send : SyncJob → Bool) (jobs : List SyncJob)
    → (run_callbacks send jobs).sent ≡ select send jobs
unfolding run_callbacks select
run_callbacks-sent send [] = refl
run_callbacks-sent send (j ∷ jobs) = ground (arith, run_callbacks-sent send jobs)

run_callbacks_counts :
    (send : SyncJob → Bool) (jobs : List SyncJob)
    → length (run_callbacks send jobs).sent + (run_callbacks send jobs).lost ≡ length jobs
unfolding run_callbacks
run_callbacks_counts send [] = refl
run_callbacks_counts send (j ∷ jobs) = ground (arith, run_callbacks_counts send jobs)

-- A request that returns commits what it wrote and empties its queue; every enqueued job that the
-- queue takes is sent, in order, also after one that failed, and each other one is counted as lost.
pub transaction_delivers :
    {A : Type 0} (send : SyncJob → Bool) (route : Exec A) (a : A) (db db' : Db)
    → route db ≡ (ok a, db')
    → let r = transaction send route db in
      (r.result ≡ ok a)
      × (r.database ≡ record db' { pending = [] })
      × (r.outbox.sent ≡ select send db'.pending)
      × (length r.outbox.sent + r.outbox.lost ≡ length db'.pending)
unfolding transaction
transaction_delivers send route a db db' h =
    rw h (refl, refl, run_callbacks-sent send db'.pending, run_callbacks_counts send db'.pending)

-- What holds of the database after a request: it is as before, or as the route left it.
pub transaction-cases :
    {A : Type 0} (P : Db → Type 0) (send : SyncJob → Bool) (route : Exec A) (db : Db)
    → P db
    → ((jobs : List SyncJob) → P (record (route db).1 { pending = jobs }))
    → P (transaction send route db).database
unfolding transaction
transaction-cases {A} P send route db before committed = go (route db) committed
  where
    go :
        (r : Result A × Db)
        → ((jobs : List SyncJob) → P (record r.1 { pending = jobs }))
        → P (finish send db r).database
    go (ok a, db') h = h []
    go (err e, db') h = before
