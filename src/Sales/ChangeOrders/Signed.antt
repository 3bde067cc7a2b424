-- ===== src/Sales/ChangeOrders/Signed.antt =====
-- `approve_change_order` and `reject_change_order` of backend/app/routers/change_orders.py.
use new_builders_stream.Prelude.{ℕ, String, ◌≡◌, sym, ap, Bool, true, false, not, ◌||◌, some, ◌∷◌}
use new_builders_stream.Prelude.Table.{replace}
use new_builders_stream.Models.{
  Db, CurrentUser, ChangeOrder, ChangeOrderStatus, Esignature, estimation, client,
}
use new_builders_stream.Core.Exec.{HttpError, Result, ok, err}
use new_builders_stream.Core.Exec.Reads.{
  Reads, reads_rules, after_read-eq-ok, require-ok, after_read-raises, require-raises, checked_row,
}
use new_builders_stream.Core.Access.{post, authorize_module, same_role}
use new_builders_stream.Core.Access.Laws.{authorize_module-Reads}
use new_builders_stream.Core.Audit.{write_audit_log}
use new_builders_stream.Core.Lookup.{require_client_access_to_project}
use new_builders_stream.Core.Lookup.Laws.{require_client_access_to_project-Reads}
use new_builders_stream.Sales.Projects.{change_order_is_pending}
use new_builders_stream.Sales.ChangeOrders.{
  SignatureForm, signer_roles, change_order_row, get_change_order_or_404, update_change_order,
  capture_esignature, require_signer_is_caller, approve_change_order, reject_change_order,
  fits_upload, sign_change_order,
}

get_change_order_or_404-Reads :
    (current : CurrentUser) (i : ℕ) → Reads (get_change_order_or_404 current i)
unfolding get_change_order_or_404
get_change_order_or_404-Reads current i =
    search (reads_rules, require_client_access_to_project-Reads)

get_change_order_or_404-row :
    (current : CurrentUser) (i : ℕ) (r : ChangeOrder) (db : Db)
    → get_change_order_or_404 current i db ≡ (ok r, db)
    → change_order_row current.session i db ≡ some r
unfolding get_change_order_or_404
get_change_order_or_404-row current i r db h =
    checked_row _ (change_order_row current.session i)
      (λ r. require_client_access_to_project current r.project_id "Change Order not found") db h

-- The row of a form and of a change order, as `approve_change_order` writes them.
abbrev pub signature : CurrentUser → ChangeOrder → SignatureForm → Db → Esignature
signature current r form db = record {
  id = db.next_id;
  company_id = r.company_id;
  signer_name = form.signer_name;
  signer_email = form.signer_email;
  signed_by_user_id = current.user_id;
  ip_address = form.ip_address;
  document_type = "change_order";
}

abbrev pub signed : ChangeOrder → Db → ChangeOrder
signed r db = record r { status = ChangeOrderStatus.approved; esignature_id = some db.next_id }

signing :
    (current : CurrentUser) (r : ChangeOrder) (form : SignatureForm) (approved : ChangeOrder)
    (db db' : Db)
    → sign_change_order current r form db ≡ (ok approved, db')
    → (approved ≡ signed r db)
      × (db'.esignatures ≡ signature current r form db ∷ db.esignatures)
      × (db'.change_orders ≡ replace (λ x. x.id) (signed r db) db.change_orders)
      × (db'.projects ≡ db.projects)
unfolding sign_change_order capture_esignature update_change_order write_audit_log
signing current r form approved db db' h = (
  value h,
  ap (λ (x : Result ChangeOrder × Db). x.1.esignatures) (sym h),
  ap (λ (x : Result ChangeOrder × Db). x.1.change_orders) (sym h),
  ap (λ (x : Result ChangeOrder × Db). x.1.projects) (sym h),
)
  where
    value :
        {a b : ChangeOrder} {x y : Db}
        → ◌≡◌ {A = Result ChangeOrder × Db} (ok a, x) (ok b, y)
        → b ≡ a
    value q = cc

module _ (same_email : String → String → Bool) (current : CurrentUser) (i : ℕ)
    (form : SignatureForm) (db : Db) where
  -- When `approve_change_order` returns a row, it read a visible change order that was pending, the
  -- signer's address is the caller's if the caller is a client, and the row returned is that one, with
  -- the status approved and the identifier of a signature by the caller, for the company of the change
  -- order, which was inserted; the row in the table was replaced by it, and no project was changed.
  pub approve_change_order_lem :
      (approved : ChangeOrder) (db' : Db)
      → approve_change_order same_email current i form db ≡ (ok approved, db')
      → (r : ChangeOrder) × (change_order_row current.session i db ≡ some r)
        × (change_order_is_pending r.status ≡ true)
        × ((not (same_role current.role client) || same_email form.signer_email current.email)
            ≡ true)
        × (approved ≡ signed r db)
        × (db'.esignatures ≡ signature current r form db ∷ db.esignatures)
        × (db'.change_orders ≡ replace (λ x. x.id) (signed r db) db.change_orders)
        × (db'.projects ≡ db.projects)
  unfolding approve_change_order require_signer_is_caller
  approve_change_order_lem approved db' h =
      let (_, _, h1) =
        after_read-eq-ok (authorize_module current signer_roles post estimation) _ db
          (authorize_module-Reads _ _ _ _) h in
      let (r, row, h2) =
        after_read-eq-ok (get_change_order_or_404 current i) _ db
          (get_change_order_or_404-Reads _ _) h1 in
      let (pending, h3) = require-ok (change_order_is_pending r.status) _ _ db h2 in
      let (signer, h4) =
        require-ok
          (not (same_role current.role client) || same_email form.signer_email current.email) _ _ db
          h3 in
      let (_, h5) = require-ok (fits_upload form) _ _ db h4 in
      let (returned, esignatures, change_orders, projects) =
        signing current r form approved db db' h5 in
      (
        r,
        get_change_order_or_404-row current i r db row,
        pending,
        signer,
        returned,
        esignatures,
        change_orders,
        projects,
      )

  -- A change order that is no longer pending can be neither approved nor rejected: both routes
  -- raise, and nothing is written.
  pub decided_once :
      (r : ChangeOrder) (reason : String)
      → change_order_row current.session i db ≡ some r
      → change_order_is_pending r.status ≡ false
      → ((e : HttpError) × (approve_change_order same_email current i form db ≡ (err e, db)))
        × ((e : HttpError) × (reject_change_order current i reason db ≡ (err e, db)))
  unfolding approve_change_order reject_change_order update_change_order write_audit_log
  decided_once r reason row decided = (
    after_read-raises (authorize_module current signer_roles post estimation) _ db
        (authorize_module-Reads _ _ _ _)
        λ _ _.
          after_read-raises (get_change_order_or_404 current i) _ db
            (get_change_order_or_404-Reads _ _)
            λ x got. require-raises (change_order_is_pending x.status) _ _ db (still x got),
    after_read-raises (authorize_module current signer_roles post estimation) _ db
        (authorize_module-Reads _ _ _ _)
        λ _ _.
          after_read-raises (get_change_order_or_404 current i) _ db
            (get_change_order_or_404-Reads _ _)
            λ x got. require-raises (change_order_is_pending x.status) _ _ db (still x got),
  )
    where
      still :
          (x : ChangeOrder)
          → get_change_order_or_404 current i db ≡ (ok x, db)
          → change_order_is_pending x.status ≡ false
      still x got =
          let same : x ≡ r = cc (get_change_order_or_404-row current i x db got) in rw same decided
