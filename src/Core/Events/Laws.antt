-- ===== src/Core/Events/Laws.antt =====
-- The registration and the dispatch of backend/app/core/events.py.
use new_builders_stream.Prelude.{◌≡◌, refl, List, [], ◌∷◌, ◌++◌, arith}
use new_builders_stream.Models.{Db}
use new_builders_stream.Core.Exec.{Exec, HttpError, ok, err, resume, >>=-eq-ok}
use new_builders_stream.Core.Events.{
  Event, lead_won, estimate_approved, project_completed, EventHandler, handle_lead_won,
  handle_estimate_approved, handle_estimate_approved_bom, handle_project_completed,
  handle_financial_record_created, Registry, register_event_handlers, call_all, handlers, publish,
}

-- A start registers one handler for each event, and two, the deposit invoice before the materials,
-- for an approved estimate.
pub expected_handlers : Registry
expected_handlers lead_won = handle_lead_won ∷ []
expected_handlers estimate_approved = handle_estimate_approved ∷ handle_estimate_approved_bom ∷ []
expected_handlers project_completed = handle_project_completed ∷ []
expected_handlers _ = handle_financial_record_created ∷ []

pub handlers-eq : (e : Event) → handlers e ≡ expected_handlers e
unfolding handlers expected_handlers
handlers-eq lead_won = refl
handlers-eq _ = refl

-- A second registration adds nothing.
pub register_event_handlers_idempotent :
    (e : Event) → register_event_handlers handlers e ≡ handlers e
unfolding register_event_handlers handlers
register_event_handlers_idempotent lead_won = refl
register_event_handlers_idempotent _ = refl

call_all-raise :
    {P : Type 0} (call : EventHandler → P → Exec (Unit {0})) (payload : P)
    (before after : List EventHandler) (h : EventHandler) (e : HttpError) (db db' db'' : Db)
    → call_all call payload before db ≡ (ok tt, db')
    → call h payload db' ≡ (err e, db'')
    → call_all call payload (before ++ h ∷ after) db ≡ (err e, db'')
unfolding call_all
call_all-raise call payload [] after h e db db' db'' p q = ground arith
call_all-raise call payload (x ∷ before) after h e db db' db'' p q =
    let (_, mid, first, others) =
      >>=-eq-ok (call x payload) (λ _. call_all call payload before) db p in
    rw (first, resume) (call_all-raise call payload before after h e mid db' db'' others q)

-- If a handler raises, the handlers after it do not run, and its error is the error of `publish`.
pub publish_stops :
    {P : Type 0} (event : Event) (call : EventHandler → P → Exec (Unit {0})) (payload : P)
    (before after : List EventHandler) (h : EventHandler) (e : HttpError) (db db' db'' : Db)
    → handlers event ≡ before ++ h ∷ after
    → call_all call payload before db ≡ (ok tt, db')
    → call h payload db' ≡ (err e, db'')
    → publish event call payload db ≡ (err e, db'')
unfolding publish
publish_stops event call payload before after h e db db' db'' r p q =
    rw r (call_all-raise call payload before after h e db db' db'' p q)
