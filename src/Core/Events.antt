-- ===== src/Core/Events.antt =====
-- backend/app/core/events.py and backend/app/core/event_handlers.py: the in-process event bus. The
-- registry maps an event name to its handlers in the order of registration.
pub mod Laws
use new_builders_stream.Prelude.{
  ℕ, Bool, false, ◌||◌, ◌==◌, if◌then◌else◌, List, [], ◌∷◌, ◌++◌, any,
}
use new_builders_stream.Core.Exec.{Exec, pure, ◌>>◌, ◌>>=◌}

pub data Event : Type 0 where
  lead_won estimate_approved project_completed : Event
  invoice_created expense_created bill_created invoice_payment_recorded : Event

pub data EventHandler : Type 0 where
  handle_lead_won handle_estimate_approved handle_estimate_approved_bom : EventHandler
  handle_project_completed handle_financial_record_created : EventHandler

event_code : Event → ℕ
event_code lead_won = 0
event_code estimate_approved = 1
event_code project_completed = 2
event_code invoice_created = 3
event_code expense_created = 4
event_code bill_created = 5
event_code invoice_payment_recorded = 6

handler_code : EventHandler → ℕ
handler_code handle_lead_won = 0
handler_code handle_estimate_approved = 1
handler_code handle_estimate_approved_bom = 2
handler_code handle_project_completed = 3
handler_code handle_financial_record_created = 4

-- `_handlers`.
abbrev pub Registry : Type 0
Registry = Event → List EventHandler

-- `clear()`.
pub cleared : Registry
cleared event = []

pub register : Event → EventHandler → Registry → Registry
unfolding event_code
register event handler handlers e =
    if event_code event == event_code e then handlers e ++ handler ∷ [] else handlers e

pub is_registered : Event → EventHandler → Registry → Bool
unfolding handler_code
is_registered event handler handlers =
    any (λ h. handler_code h == handler_code handler) (handlers event)

register_once : Event → EventHandler → Registry → Registry
unfolding register is_registered
register_once event handler handlers =
    if is_registered event handler handlers then handlers else register event handler handlers

pub register_event_handlers : Registry → Registry
unfolding register_once
register_event_handlers r0 =
    let r1 = register_once lead_won handle_lead_won r0 in
    let r2 = register_once estimate_approved handle_estimate_approved r1 in
    let r3 = register_once estimate_approved handle_estimate_approved_bom r2 in
    let r4 = register_once project_completed handle_project_completed r3 in
    let r5 = register_once invoice_created handle_financial_record_created r4 in
    let r6 = register_once expense_created handle_financial_record_created r5 in
    let r7 = register_once bill_created handle_financial_record_created r6 in
    register_once invoice_payment_recorded handle_financial_record_created r7

-- The registry of the running application.
unfoldable pub handlers : Registry
unfolding register_event_handlers cleared
handlers = register_event_handlers cleared

unfoldable pub call_all :
    {P : Type 0} → (EventHandler → P → Exec (Unit {0})) → P → List EventHandler → Exec (Unit {0})
call_all call payload [] = pure tt
call_all call payload (h ∷ hs) = call h payload >> call_all call payload hs

-- Each handler in turn; the first that raises ends the loop. `call` is the code of a handler at the
-- payload of this event.
unfoldable pub publish :
    {P : Type 0} → Event → (EventHandler → P → Exec (Unit {0})) → P → Exec (Unit {0})
unfolding call_all handlers
publish event call payload = call_all call payload (handlers event)
