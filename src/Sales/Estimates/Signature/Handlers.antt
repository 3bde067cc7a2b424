-- ===== src/Sales/Estimates/Signature/Handlers.antt =====
-- The handlers of ESTIMATE_APPROVED and properties that their writes do not touch.
use new_builders_stream.Prelude.{ℕ, String, ◌+◌, Option, some, none, List, [], ◌∷◌}
use new_builders_stream.Prelude.Int.{ℤ}
use new_builders_stream.Prelude.Table.{replace}
use new_builders_stream.Models.{
  Db, Session, EstimateLineItem, CostCatalogItem, BomLine, AuditLog, MetaValue, estimation,
  accounting, uuid,
}
use new_builders_stream.Core.Exec.{gets, modify, uuid4}
use new_builders_stream.Core.Exec.Reads.{Reads-pure, Reads-gets, Reads-raise}
use new_builders_stream.Core.Exec.Preserves.{
  Preserves, Preserves-Reads, Preserves-if, Preserves-modify, Preserves-bind,
}
use new_builders_stream.Core.Access.{tier_allows}
use new_builders_stream.Core.Audit.{write_audit_log}
use new_builders_stream.Core.Events.{publish, call_all, handlers, estimate_approved}
use new_builders_stream.Sales.Estimates.Deposit.{
  EstimateApproved, deposit_of_total, estimate_was_approved,
}
use new_builders_stream.Sales.Estimates.Deposit.Exact.{deposited, deposit_of_total-eq}
use new_builders_stream.Sales.Estimates.Materials.{
  materials, add_to_line, existing_line, add_materials, materials_were_approved,
}
use new_builders_stream.Sales.Estimates.Signature.{call_approved}

-- A property that none of the writes of the handlers breaks.
pub record Stable (P : Db → Type 0) : Type 0 where
  pub deposits :
      (session : Session) (p : EstimateApproved) (project_id : ℕ) (amount : ℤ) (db : Db)
      → P db
      → P (deposited session p project_id amount db)
  pub lines : (db : Db) (rows : List BomLine) → P db → P (record db { bom_lines = rows })
  pub ids : (db : Db) → P db → P (record db { next_id = db.next_id + 1 })
  pub audits : (db : Db) (rows : List AuditLog) → P db → P (record db { audit_log = rows })

module _ (P : Db → Type 0) (h : Stable P) where
  deposit_of_total-Preserves :
      (session : Session) (p : EstimateApproved) (project_id : ℕ) (total : Option ℤ)
      → Preserves P (deposit_of_total session p project_id total)
  unfolding deposit_of_total
  deposit_of_total-Preserves session p project_id none = Preserves-Reads P _ (Reads-raise _)
  deposit_of_total-Preserves session p project_id (some total) = record {
    keep = λ db s.
        rw (deposit_of_total-eq session p project_id total db)
          (h.deposits session p project_id _ db s);
  }

  estimate_was_approved-Preserves :
      (session : Session) (p : EstimateApproved) (project_id : Option ℕ)
      → Preserves P (estimate_was_approved session p project_id)
  unfolding estimate_was_approved
  estimate_was_approved-Preserves session p none = Preserves-Reads P _ (Reads-pure _)
  estimate_was_approved-Preserves session p (some project_id) =
      Preserves-bind P (gets (tier_allows session p.company_id accounting)) _
        (Preserves-Reads P _ (Reads-gets _))
        λ allowed.
          Preserves-if P allowed _ _
            (deposit_of_total-Preserves session p project_id p.approved_total)
            (Preserves-Reads P _ (Reads-pure _))

  new_id : Preserves P uuid4
  new_id = record { keep = λ db s. h.ids db s }

  audit :
      (c : ℕ) (actor : Option ℕ) (action entity : String) (i : ℕ)
      (metadata : List (String × MetaValue))
      → Preserves P (write_audit_log c actor action entity i metadata)
  unfolding write_audit_log
  audit c actor action entity i metadata = Preserves-modify P _ λ db s. h.audits db _ s

  written :
      (f : List BomLine → List BomLine)
      → Preserves P (modify (λ db. record db { bom_lines = f db.bom_lines }))
  written f = Preserves-modify P _ λ db s. h.lines db (f db.bom_lines) s

  add_to_line-Preserves :
      (p : EstimateApproved) (project_id : ℕ) (l : EstimateLineItem) (item : CostCatalogItem)
      (existing : Option BomLine)
      → Preserves P (add_to_line p project_id l item existing)
  unfolding add_to_line
  add_to_line-Preserves p project_id l item none = Preserves-bind P uuid4 _ new_id λ id.
      Preserves-bind P (modify _) _ (written (λ rows. _ ∷ rows))
        λ _. Preserves-Reads P _ (Reads-pure id)
  add_to_line-Preserves p project_id l item (some b) =
      Preserves-bind P (modify _) _ (written (replace (λ x. x.id) _))
        λ _. Preserves-Reads P _ (Reads-pure b.id)

  add_materials-Preserves :
      (session : Session) (p : EstimateApproved) (project_id : ℕ)
      (rows : List (EstimateLineItem × CostCatalogItem))
      → Preserves P (add_materials session p project_id rows)
  unfolding add_materials
  add_materials-Preserves session p project_id [] = Preserves-Reads P _ (Reads-pure _)
  add_materials-Preserves session p project_id ((l, item) ∷ rows) =
      Preserves-bind P (gets (λ db. existing_line session project_id item.id db.bom_lines)) _
        (Preserves-Reads P _ (Reads-gets _))
        λ existing.
          Preserves-bind P (add_to_line p project_id l item existing) _
            (add_to_line-Preserves p project_id l item existing)
            λ i.
              Preserves-bind P
                (write_audit_log p.company_id none "bom_line.auto_generated" "bom_line" i
                  (("estimate_id", uuid p.estimate_id) ∷ []))
                _ (audit _ _ _ _ _ _) λ _. add_materials-Preserves session p project_id rows

  materials_were_approved-Preserves :
      (session : Session) (p : EstimateApproved) (project_id : Option ℕ)
      → Preserves P (materials_were_approved session p project_id)
  unfolding materials_were_approved
  materials_were_approved-Preserves session p none = Preserves-Reads P _ (Reads-pure _)
  materials_were_approved-Preserves session p (some project_id) =
      Preserves-bind P (gets (tier_allows session p.company_id estimation)) _
        (Preserves-Reads P _ (Reads-gets _))
        λ allowed.
          Preserves-if P allowed _ _
            (Preserves-bind P (gets (materials session p.estimate_id)) _
              (Preserves-Reads P _ (Reads-gets _))
              λ rows. add_materials-Preserves session p project_id rows)
            (Preserves-Reads P _ (Reads-pure _))

  -- Both handlers of the event.
  pub publish_approved-Preserves :
      (session : Session) (p : EstimateApproved)
      → Preserves P (publish estimate_approved (call_approved session) p)
  unfolding publish call_all handlers call_approved
  publish_approved-Preserves session p =
      Preserves-bind P (estimate_was_approved session p p.project_id) _
        (estimate_was_approved-Preserves session p p.project_id)
        λ _.
          Preserves-bind P (materials_were_approved session p p.project_id) _
            (materials_were_approved-Preserves session p p.project_id)
            λ _. Preserves-Reads P _ (Reads-pure _)
