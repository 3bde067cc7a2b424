-- ===== src/Sales/Estimates/LineItems/Total.antt =====
-- What an estimate adds up to after its line items were replaced.
use new_builders_stream.Prelude.{
  ℕ, suc, ◌≡◌, refl, sym, ap, ◌∙◌, Bool, true, not, ◌&&◌, ◌==◌, any, length, Bool-cases, inl, inr,
  Option, some, List, [], ◌∷◌, arith,
}
use new_builders_stream.Prelude.Int.{ℤ, pos, ◌+ℤ◌, int_laws}
use new_builders_stream.Prelude.Table.{select, sum_where}
use new_builders_stream.Models.{
  Db, Session, CurrentUser, estimation, Estimate, EstimateLineItem, CostCatalogItem,
}
use new_builders_stream.Core.Exec.{Result, ok, err, resume, pure, >>=-eq-ok}
use new_builders_stream.Core.Exec.Reads.{after_read-eq-ok, require-ok, or_raise-ok}
use new_builders_stream.Core.Access.{put, authorize_module}
use new_builders_stream.Core.Access.Laws.{authorize_module-Reads}
use new_builders_stream.Core.Lookup.Laws.{visible_row-find}
use new_builders_stream.Sales.Projects.{project_roles}
use new_builders_stream.Sales.Estimates.{is_sent, estimate_row, get_estimate_or_404}
use new_builders_stream.Sales.Estimates.Signature.Approved.{
  get_estimate_or_404-Reads, get_estimate_or_404-row,
}
use new_builders_stream.Sales.Estimates.LineItems.{
  EstimateLineItemInput, exactly_one_shape, resolve_lines, resolved_catalog, is_rate_conflict,
  line_total_of, insert_lines, delete_lines, position_taken, replace_estimate_line_items,
}

-- The sum of the prices of resolved lines.
unfoldable pub priced : List (EstimateLineItemInput × Option CostCatalogItem) → ℤ
priced [] = pos 0
priced ((line, item) ∷ lines) = line_total_of line item +ℤ priced lines

-- What `calculate_estimate` adds up for an estimate.
abbrev pub lines_of : Session → ℕ → EstimateLineItem → Bool
lines_of session i l = session.visible l.company_id && l.estimate_id == i

unfoldable pub lines_total : Session → ℕ → List EstimateLineItem → ℤ
lines_total session i rows = sum_where (lines_of session i) (λ l. l.line_total) rows

-- The line items of the other estimates.
unfoldable pub others_of : ℕ → List EstimateLineItem → List EstimateLineItem
unfolding select
others_of i rows = select (λ l. not (l.estimate_id == i)) rows

resume-pure_db :
    {A B : Type 0} (r : Result A × Db) (f : A → B) → (resume r (λ a. pure (f a))).1 ≡ r.1
resume-pure_db (ok a, db) f = refl
resume-pure_db (err e, db) f = refl

module _ (session : Session) (e : Estimate) where
  lines_total-cons :
      (r : EstimateLineItem) (rows : List EstimateLineItem) (p : ℤ)
      → lines_of session e.id r ≡ true
      → p +ℤ lines_total session e.id (r ∷ rows)
        ≡ (r.line_total +ℤ p) +ℤ lines_total session e.id rows
  unfolding lines_total sum_where
  lines_total-cons r rows p h = rw h (omega int_laws)

  lines_total-insert :
      (n : ℕ) (lines : List (EstimateLineItemInput × Option CostCatalogItem)) (db : Db)
      → session.visible e.company_id ≡ true
      → lines_total session e.id (insert_lines e n lines db).1.line_items
        ≡ priced lines +ℤ lines_total session e.id db.line_items
  unfolding insert_lines priced
  lines_total-insert n [] db shown = omega int_laws
  lines_total-insert n ((line, item) ∷ lines) db shown =
      ap (λ (d : Db). lines_total session e.id d.line_items) (resume-pure_db _ _)
      ∙ lines_total-insert (suc n) lines _ shown
      ∙ lines_total-cons _ db.line_items (priced lines) (ground arith)

  -- Other estimates keep their lines, and the estimates do not change.
  others-insert :
      (n : ℕ) (lines : List (EstimateLineItemInput × Option CostCatalogItem)) (db : Db)
      → others_of e.id (insert_lines e n lines db).1.line_items ≡ others_of e.id db.line_items
  unfolding insert_lines others_of select
  others-insert n [] db = refl
  others-insert n ((line, item) ∷ lines) db =
      ap (λ (d : Db). others_of e.id d.line_items) (resume-pure_db _ _)
      ∙ others-insert (suc n) lines _
      ∙ ground arith

  estimates-insert :
      (n : ℕ) (lines : List (EstimateLineItemInput × Option CostCatalogItem)) (db : Db)
      → (insert_lines e n lines db).1.estimates ≡ db.estimates
  unfolding insert_lines
  estimates-insert n [] db = refl
  estimates-insert n ((line, item) ∷ lines) db =
      ap (λ (d : Db). d.estimates) (resume-pure_db _ _) ∙ estimates-insert (suc n) lines _

  -- The delete leaves nothing of the estimate, and the lines of the others.
  lines_total-delete :
      (rows : List EstimateLineItem)
      → lines_total session e.id (select (λ l. not (lines_of session e.id l)) rows) ≡ pos 0
  unfolding lines_total sum_where select
  lines_total-delete [] = refl
  lines_total-delete (r ∷ rows) = elim (Bool-cases (lines_of session e.id r)) [
    | inl its ↦ rw its (lines_total-delete rows)
    | inr other ↦ rw (other, other) (lines_total-delete rows)
  ]

  others-delete :
      (rows : List EstimateLineItem)
      → others_of e.id (select (λ l. not (lines_of session e.id l)) rows) ≡ others_of e.id rows
  unfolding others_of select
  others-delete [] = refl
  others-delete (r ∷ rows) = ground (arith, others-delete rows)

  nothing_else :
      (lines : List (EstimateLineItemInput × Option CostCatalogItem)) (rows : List EstimateLineItem)
      → priced lines +ℤ lines_total session e.id (select (λ l. not (lines_of session e.id l)) rows)
        ≡ priced lines
  nothing_else lines rows = rw (lines_total-delete rows) (omega int_laws)

estimate_row-visible :
    (session : Session) (i : ℕ) (db : Db) (e : Estimate)
    → estimate_row session i db ≡ some e
    → session.visible e.company_id ≡ true
unfolding estimate_row
estimate_row-visible session i db e h =
    (visible_row-find session (λ r. r.id) (λ r. r.company_id) i e db.estimates h).1

ok_injective :
    {A : Type 0} {a b : A} {c d : Db} → ◌≡◌ {A = Result A × Db} (ok a, c) (ok b, d) → b ≡ a
ok_injective q = cc

module _ (current : CurrentUser) (i : ℕ) (items : List EstimateLineItemInput) where
  -- When `replace_estimate_line_items` returns, it read a visible estimate that was neither
  -- snapshotted nor sent, each line of the request resolved and none expected another rate than the
  -- catalog's; what `calculate_estimate` adds up for the estimate is then the sum of the prices of
  -- the lines of the request, the line items of every other estimate are what they were, and so are
  -- the estimates.
  pub replace_estimate_line_items_lem :
      (reply : Estimate × List EstimateLineItem) (db db' : Db)
      → replace_estimate_line_items current i items db ≡ (ok reply, db')
      → (e : Estimate) × (estimate_row current.session i db ≡ some e)
        × (reply.0 ≡ e)
        × (not e.is_snapshotted ≡ true)
        × (not (is_sent e.status) ≡ true)
        × (lines : List (EstimateLineItemInput × Option CostCatalogItem)) × (resolve_lines
              (resolved_catalog current db)
              items
            ≡ some lines)
        × (not (any is_rate_conflict lines) ≡ true)
        × (lines_total current.session e.id db'.line_items ≡ priced lines)
        × (others_of e.id db'.line_items ≡ others_of e.id db.line_items)
        × (db'.estimates ≡ db.estimates)
  unfolding replace_estimate_line_items delete_lines
  replace_estimate_line_items_lem reply db db' ran =
      let (_, _, h1) =
        after_read-eq-ok (authorize_module current project_roles put estimation) _ db
          (authorize_module-Reads _ _ _ _) ran in
      let (shaped, h2) =
        require-ok (not (any (λ line. not (exactly_one_shape line)) items)) _ _ db h1 in
      let (found, row, h3) =
        after_read-eq-ok (get_estimate_or_404 current i) _ db (get_estimate_or_404-Reads _ _) h2 in
      let (unlocked, h4) = require-ok (not found.is_snapshotted) _ _ db h3 in
      let (unsent, h5) = require-ok (not (is_sent found.status)) _ _ db h4 in
      let (lines, resolved, h6) =
        or_raise-ok _ (resolve_lines (resolved_catalog current db) items) _ db h5 in
      let (agreed, h7) = require-ok (not (any is_rate_conflict lines)) _ _ db h6 in
      let kept : Db = (delete_lines current found.id db).1 in
      let (free, h8) =
        require-ok (not (position_taken found.id (length lines) kept.line_items)) _ _ kept h7 in
      let (rows, mid, inserted, q) =
        >>=-eq-ok (insert_lines found 0 lines) (λ rows. pure (found, rows)) kept h8 in
      let written : (insert_lines found 0 lines kept).1 ≡ db' =
        ap (λ (r : Result (List EstimateLineItem) × Db). r.1) inserted
        ∙ ap (λ (r : Result (Estimate × List EstimateLineItem) × Db). r.1) q in
      let shown =
        estimate_row-visible current.session i db found (get_estimate_or_404-row _ _ _ _ row) in
      (
        found,
        get_estimate_or_404-row _ _ _ _ row,
        ap (λ (r : Estimate × List EstimateLineItem). r.0) (ok_injective q),
        unlocked,
        unsent,
        lines,
        resolved,
        agreed,
        ap (λ (d : Db). lines_total current.session found.id d.line_items) (sym written)
            ∙ lines_total-insert current.session found 0 lines kept shown
            ∙ nothing_else current.session found lines db.line_items,
        ap (λ (d : Db). others_of found.id d.line_items) (sym written)
            ∙ others-insert current.session found 0 lines kept
            ∙ others-delete current.session found db.line_items,
        ap (λ (d : Db). d.estimates) (sym written)
            ∙ estimates-insert current.session found 0 lines kept,
      )
