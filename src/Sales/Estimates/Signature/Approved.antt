-- ===== src/Sales/Estimates/Signature/Approved.antt =====
-- `approve_estimate` of backend/app/routers/estimates.py.
use new_builders_stream.Prelude.{
  ℕ, String, ◌+◌, ◌≡◌, refl, ap, ◌∙◌, Bool, true, not, ◌||◌, Option, some, List, arith,
}
use mathlib.Core.Path.{subst}
use new_builders_stream.Prelude.Table.{replace}
use new_builders_stream.Models.{Db, Session, CurrentUser, client, estimation, Estimate, MetaValue}
use new_builders_stream.Core.Exec.{Exec, Result, ok, pure, >>=-eq-ok, ◌>>=◌}
use new_builders_stream.Core.Exec.Reads.{
  Reads, Reads-pure, Reads-require, reads_rules, after_read-eq-ok, require-ok, checked_row,
}
use new_builders_stream.Core.Exec.Preserves.{
  Preserves, Preserves-Reads, Preserves-modify, Preserves-bind,
}
use new_builders_stream.Core.Access.{post, authorize_module, same_role}
use new_builders_stream.Core.Access.Laws.{authorize_module-Reads}
use new_builders_stream.Core.Audit.{write_audit_log}
use new_builders_stream.Core.Events.{publish, estimate_approved}
use new_builders_stream.Core.Lookup.{require_client_access_to_estimate}
use new_builders_stream.Core.Lookup.Laws.{require_client_access_to_estimate-Reads}
use new_builders_stream.Billing.Ledger.Sound.{IsSound-insert, IsSound-later}
use new_builders_stream.Billing.Invoices.{is_paid}
use new_builders_stream.Billing.Invoices.Books.{invoice_kind}
use new_builders_stream.Billing.Bills.Books.{bill_kind}
use new_builders_stream.Sales.ChangeOrders.{
  SignatureForm, signer_roles, capture_esignature, fits_upload, require_signer_is_caller,
}
use new_builders_stream.Sales.Projects.Books.{Both}
use new_builders_stream.Sales.Estimates.{
  is_sent, estimate_row, get_estimate_or_404, update_estimate_row,
}
use new_builders_stream.Sales.Estimates.Deposit.{EstimateApproved}
use new_builders_stream.Sales.Estimates.Deposit.Exact.{the_deposit}
use new_builders_stream.Sales.Estimates.Signature.{
  approved_row, call_approved, sign_estimate, approve_estimate,
}
use new_builders_stream.Sales.Estimates.Signature.Handlers.{Stable, publish_approved-Preserves}

-- The estimates are these.
HasEstimates : List Estimate → Db → Type 0
HasEstimates rows db = db.estimates ≡ rows

HasEstimates-Stable : (rows : List Estimate) → Stable (HasEstimates rows)
unfolding HasEstimates
HasEstimates-Stable rows = record {
  deposits = λ session p i amount db s. s;
  lines = λ db x s. s;
  ids = λ db s. s;
  audits = λ db x s. s;
}

Both-Stable : Stable Both
unfolding is_paid
Both-Stable = record {
  deposits = λ session p i amount db s. (
    IsSound-insert invoice_kind s.0 (the_deposit session p i amount db) refl refl,
    IsSound-later bill_kind s.1 (db.next_id + 1) (omega arith),
  );
  lines = λ db x s. s;
  ids = λ db s. (
    IsSound-later invoice_kind s.0 (db.next_id + 1) (omega arith),
    IsSound-later bill_kind s.1 (db.next_id + 1) (omega arith),
  );
  audits = λ db x s. s;
}

pub get_estimate_or_404-Reads :
    (current : CurrentUser) (i : ℕ) → Reads (get_estimate_or_404 current i)
unfolding get_estimate_or_404
get_estimate_or_404-Reads current i = search (reads_rules, require_client_access_to_estimate-Reads)

pub get_estimate_or_404-row :
    (current : CurrentUser) (i : ℕ) (r : Estimate) (db : Db)
    → get_estimate_or_404 current i db ≡ (ok r, db)
    → estimate_row current.session i db ≡ some r
unfolding get_estimate_or_404
get_estimate_or_404-row current i r db h =
    checked_row _ (estimate_row current.session i)
      (λ r. require_client_access_to_estimate current r) db h

-- An action that keeps a property and then returns a value.
returned :
    {B : Type 0} (P : Db → Type 0) (m : Exec (Unit {0})) (b x : B) (db db' : Db)
    → Preserves P m
    → P db
    → (m >>= λ _. pure b) db ≡ (ok x, db')
    → (x ≡ b) × P db'
returned {B} P m b x db db' keeps s h =
    let (_, mid, ran, q) = >>=-eq-ok m (λ _. pure b) db h in
    let (value, same) = parts q in
    (value, subst P (ap (λ (r : Result (Unit {0}) × Db). r.1) ran ∙ same) (keeps.keep db s))
  where
    parts : {a : B} {c d : Db} → ◌≡◌ {A = Result B × Db} (ok b, c) (ok a, d) → (a ≡ b) × (c ≡ d)
    parts q = (cc, cc)

sign_estimate-rows :
    (current : CurrentUser) (e approved : Estimate) (form : SignatureForm) (db db' : Db)
    → sign_estimate current e form db ≡ (ok approved, db')
    → (approved ≡ approved_row e db.next_id)
      × (db'.estimates ≡ replace (λ x. x.id) (approved_row e db.next_id) db.estimates)
unfolding sign_estimate capture_esignature update_estimate_row write_audit_log HasEstimates
sign_estimate-rows current e approved form db db' h =
    let rows = replace (λ x. x.id) (approved_row e db.next_id) db.estimates in
    returned (HasEstimates rows)
      (publish estimate_approved (call_approved current.session) (record {
        estimate_id = e.id;
        project_id = e.project_id;
        company_id = e.company_id;
        approved_total = e.total;
        actor_id = some current.user_id;
      }))
      (approved_row e db.next_id) approved _ db'
      (publish_approved-Preserves (HasEstimates rows) (HasEstimates-Stable rows) current.session _)
      refl h

module _ (same_email : String → String → Bool) (current : CurrentUser) (i : ℕ)
    (form : SignatureForm) where
  -- When `approve_estimate` returns a row, it read a visible estimate that was sent, the signer's
  -- address is the caller's if the caller is a client, and the row returned is that one with the
  -- status approved, snapshotted, and with the identifier of the new signature; in the table that row
  -- has replaced it and no other estimate has changed, whatever the handlers of the event wrote.
  pub approve_estimate_lem :
      (approved : Estimate) (db db' : Db)
      → approve_estimate same_email current i form db ≡ (ok approved, db')
      → (e : Estimate) × (estimate_row current.session i db ≡ some e)
        × (is_sent e.status ≡ true)
        × ((not (same_role current.role client) || same_email form.signer_email current.email)
            ≡ true)
        × (approved ≡ approved_row e db.next_id)
        × (db'.estimates ≡ replace (λ x. x.id) (approved_row e db.next_id) db.estimates)
  unfolding approve_estimate require_signer_is_caller
  approve_estimate_lem approved db db' h =
      let (_, _, h1) =
        after_read-eq-ok (authorize_module current signer_roles post estimation) _ db
          (authorize_module-Reads _ _ _ _) h in
      let (e, row, h2) =
        after_read-eq-ok (get_estimate_or_404 current i) _ db (get_estimate_or_404-Reads _ _) h1 in
      let (sent, h3) = require-ok (is_sent e.status) _ _ db h2 in
      let (signer, h4) =
        require-ok
          (not (same_role current.role client) || same_email form.signer_email current.email) _ _ db
          h3 in
      let (_, h5) = require-ok (fits_upload form) _ _ db h4 in
      let (value, rows) = sign_estimate-rows current e approved form db db' h5 in
      (e, get_estimate_or_404-row current i e db row, sent, signer, value, rows)

bind :
    {A B : Type 0} (m : Exec A) (k : A → Exec B)
    → Preserves Both m
    → ((a : A) → Preserves Both (k a))
    → Preserves Both (m >>= k)
bind m k = Preserves-bind Both m k

reads : {A : Type 0} (m : Exec A) → Reads m → Preserves Both m
reads m r = Preserves-Reads Both m r

captured :
    (current : CurrentUser) (c : ℕ) (kind : String) (form : SignatureForm)
    → Preserves Both (capture_esignature current c kind form)
unfolding capture_esignature
captured current c kind form = record {
  keep = λ db s. (
    IsSound-later invoice_kind s.0 (db.next_id + 1) (omega arith),
    IsSound-later bill_kind s.1 (db.next_id + 1) (omega arith),
  );
}

updated : (r : Estimate) → Preserves Both (update_estimate_row r)
unfolding update_estimate_row
updated r = Preserves-modify Both _ (λ db s. s)

audited :
    (c : ℕ) (actor : Option ℕ) (action entity : String) (i : ℕ)
    (metadata : List (String × MetaValue))
    → Preserves Both (write_audit_log c actor action entity i metadata)
unfolding write_audit_log
audited c actor action entity i metadata = Preserves-modify Both _ (λ db s. s)

published :
    (session : Session) (p : EstimateApproved)
    → Preserves Both (publish estimate_approved (call_approved session) p)
published session p = publish_approved-Preserves Both Both-Stable session p

sign_estimate-Preserves :
    (current : CurrentUser) (e : Estimate) (form : SignatureForm)
    → Preserves Both (sign_estimate current e form)
unfolding sign_estimate
sign_estimate-Preserves current e form =
    search (bind, reads, captured, updated, audited, published, Reads-pure) depth 16

-- The approval, on every branch.
pub approve_estimate-Preserves :
    (same_email : String → String → Bool) (current : CurrentUser) (i : ℕ) (form : SignatureForm)
    → Preserves Both (approve_estimate same_email current i form)
unfolding approve_estimate require_signer_is_caller
approve_estimate-Preserves same_email current i form =
    search
      (
        bind, reads, sign_estimate-Preserves, Reads-require, authorize_module-Reads,
        get_estimate_or_404-Reads,
      )
      depth 16
