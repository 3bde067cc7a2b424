-- ===== src/Sales/Leads/Pipeline.antt =====
-- The status of a lead, and the project of one that is won, under `update_lead` of
-- backend/app/routers/leads.py.
use new_builders_stream.Prelude.{
  ℕ, suc, ◌≡◌, refl, sym, ap, ◌∙◌, Bool, true, false, not, ◌&&◌, ◌||◌, Option, some, none, ◌∷◌,
  arith, if◌then◌else◌, ◌⊎◌, Bool-cases, inl, inr,
}
use new_builders_stream.Models.{Db, Session, CurrentUser, Lead, LeadStatus, Project, ProjectStatus}
use new_builders_stream.Core.Exec.{Result, ok, pure}
use new_builders_stream.Core.Exec.Reads.{
  Reads, Reads-fetch, after_read-eq-ok, require-ok, or_raise-ok, or_raise-eq-ok, returns-ok,
  then-pure_db,
}
use new_builders_stream.Core.Access.{patch, authorize_write}
use new_builders_stream.Core.Access.Laws.{authorize_write-Reads}
use new_builders_stream.Core.Events.{publish, call_all, handlers}
use new_builders_stream.Core.Audit.{write_audit_log}
use new_builders_stream.Sales.Leads.{
  LeadUpdateRequest, is_legal_transition, same_status, is_won, lead_roles, lead_row,
  get_lead_or_404, is_current, status_changing, requested, stamped, same_columns, same_fields,
  with_fields, update_row, publish_won, lead_was_won, call_won, status_changed, write_lead,
  update_lead,
}

-- Legal transitions, one after the other.
pub data Moves : ℕ → LeadStatus → LeadStatus → Type 0 where
  still : (a : LeadStatus) → Moves 0 a a
  move :
      (n : ℕ) (a b c : LeadStatus)
      → is_legal_transition a b ≡ true
      → Moves n b c
      → Moves (suc n) a c

-- How many transitions lead from a status to `won`.
pub distance : LeadStatus → ℕ
distance LeadStatus.new = 4
distance LeadStatus.contacted = 3
distance LeadStatus.estimating = 2
distance LeadStatus.qualified = 1
distance LeadStatus.won = 0
distance LeadStatus.lost = 9

lost_ends : (n : ℕ) (c : LeadStatus) → Moves n LeadStatus.lost c → c ≡ LeadStatus.lost
unfolding is_legal_transition
lost_ends _ _ (still _) = refl
lost_ends _ _ (move _ _ _ _ legal _) = absurd (cc)

closer :
    (a b : LeadStatus)
    → is_legal_transition a b ≡ true
    → (b ≡ LeadStatus.lost) ⊎ (distance a ≡ suc (distance b))
unfolding is_legal_transition distance
closer a b h = ground arith

-- A chain of legal transitions from any status to `won` has the length of the distance, four for a
-- new lead: the transitions to `won` cannot skip a stage, go back, or leave `lost`.
pub Moves-distance : (n : ℕ) (a : LeadStatus) → Moves n a LeadStatus.won → n ≡ distance a
unfolding distance
Moves-distance _ _ (still _) = refl
Moves-distance _ _ (move n a b _ legal moves) = elim (closer a b legal) [
  | inl lost ↦ absurd (cc (lost_ends n LeadStatus.won (rw lost at moves)))
  | inr step ↦ omega (arith, step, Moves-distance n b moves)
]

get_lead_or_404-Reads : (current : CurrentUser) (i : ℕ) → Reads (get_lead_or_404 current i)
unfolding get_lead_or_404
get_lead_or_404-Reads current i = Reads-fetch _ _

get_lead_or_404-row :
    (current : CurrentUser) (i : ℕ) (db : Db) {lead : Lead} {db' : Db}
    → get_lead_or_404 current i db ≡ (ok lead, db')
    → lead_row current.session i db ≡ some lead
unfolding get_lead_or_404
get_lead_or_404-row current i db h = or_raise-eq-ok _ (lead_row current.session i db) db h

-- The project that `handle_lead_won` drafts.
abbrev pub drafted : Lead → ℕ → Project
drafted lead id = record {
  id = id;
  company_id = lead.company_id;
  lead_id = some lead.id;
  name = lead.project_name;
  site_address = "";
  status = ProjectStatus.draft;
  projected_start_date = none;
}

publish_won-projects :
    (current : CurrentUser) (lead : Lead) (db : Db)
    → (publish_won current lead db).1.projects
      ≡ (if is_won lead.status then drafted lead db.next_id ∷ db.projects else db.projects)
unfolding publish_won lead_was_won call_won publish call_all handlers write_audit_log
publish_won-projects current lead db = elim (Bool-cases (is_won lead.status)) [
  | inl won ↦ rw won refl
  | inr open_lead ↦ rw open_lead refl
]

write_lead-projects :
    (current : CurrentUser) (changing : Bool) (previous : LeadStatus) (written : Lead) (db : Db)
    → (write_lead current changing previous written db).1.projects ≡ (
        if changing && is_won written.status
        then drafted written db.next_id ∷ db.projects
        else db.projects)
unfolding write_lead status_changed update_row write_audit_log
write_lead-projects current true previous written db =
    rw (then-pure_db (status_changed current previous written) written)
      (publish_won-projects current written _)
write_lead-projects current false previous written db = refl

write_lead-ok :
    (current : CurrentUser) (changing : Bool) (previous : LeadStatus) (written x : Lead)
    (db db' : Db)
    → write_lead current changing previous written db ≡ (ok x, db')
    → x ≡ written
unfolding write_lead update_row
write_lead-ok current changing previous written x db db' h =
    returns-ok (if changing then status_changed current previous written else pure tt) written _ h

same_status-eq : (a b : LeadStatus) → same_status a b ≡ true → a ≡ b
unfolding same_status
same_status-eq a b h = ground arith

first : (a b : Bool) → (a && b) ≡ true → a ≡ true
first true b h = refl
first false b h = absurd (cc)

same_columns-status : (a b : Lead) → same_columns a b ≡ true → a.status ≡ b.status
unfolding same_columns
same_columns-status a b h =
    same_status-eq a.status b.status (first (same_status a.status b.status) (same_fields a b) h)

stamped-status :
    (session : Session) (old edited : Lead) → (stamped session old edited).status ≡ edited.status
unfolding stamped
stamped-status session old edited = elim (Bool-cases (same_columns old edited)) [
  | inl same ↦ rw same (same_columns-status old edited same)
  | inr other ↦ rw other
]

requested_lem :
    (status : Option LeadStatus) (lead : Lead)
    → (not (status_changing status lead) || is_legal_transition lead.status (requested status lead))
      ≡ true
    → (requested status lead ≡ lead.status)
      ⊎ (is_legal_transition lead.status (requested status lead) ≡ true)
unfolding requested status_changing
requested_lem none lead h = inl refl
requested_lem (some s) lead h = elim (Bool-cases (same_status s lead.status)) [
  | inl same ↦ inl (same_status-eq s lead.status same)
  | inr other ↦ inr (rw other at h)
]

-- When `update_lead` returns a lead, it read the lead's visible row, which had the expected version
-- if the request named one; the lead has the status that was requested, or its old one if none was;
-- that status is the old one or follows it by a legal transition; and the request has drafted one
-- project for the returned lead if the status has changed to won, and no project otherwise.
pub update_lead_lem :
    (current : CurrentUser) (i : ℕ) (payload : LeadUpdateRequest) (written : Lead) (db db' : Db)
    → update_lead current i payload db ≡ (ok written, db')
    → (lead : Lead) × (lead_row current.session i db ≡ some lead)
      × (is_current payload.expected_updated_at lead.updated_at ≡ true)
      × (written.status ≡ requested payload.status lead)
      × ((written.status ≡ lead.status) ⊎ (is_legal_transition lead.status written.status ≡ true))
      × (db'.projects ≡ (
          if status_changing payload.status lead && is_won written.status
          then drafted written db.next_id ∷ db.projects
          else db.projects))
unfolding update_lead
update_lead_lem current i payload written db db' h =
    let (_, _, h1) =
      after_read-eq-ok (authorize_write current lead_roles patch) _ db (authorize_write-Reads _ _ _)
        h in
    let (lead, row, h2) =
      after_read-eq-ok (get_lead_or_404 current i) _ db (get_lead_or_404-Reads _ _) h1 in
    let (fresh, h3) =
      require-ok (is_current payload.expected_updated_at lead.updated_at) _ _ db h2 in
    let (legal, h4) =
      require-ok
        (not (status_changing payload.status lead)
          || is_legal_transition lead.status (requested payload.status lead))
        _ _ db h3 in
    let (edited, _, h5) = or_raise-ok _ (with_fields payload lead) _ db h4 in
    let stored : Lead =
      stamped current.session lead (record edited { status = requested payload.status lead }) in
    let same : written ≡ stored = write_lead-ok current _ lead.status stored written db db' h5 in
    let status : written.status ≡ requested payload.status lead =
      ap (λ (l : Lead). l.status) same
      ∙ stamped-status current.session lead
          (record edited { status = requested payload.status lead }) in
    (
      lead,
      get_lead_or_404-row current i db row,
      fresh,
      status,
      rw status (requested_lem payload.status lead legal),
      rw same (
          ap (λ (r : Result Lead × Db). r.1.projects) (sym h5)
          ∙ write_lead-projects current (status_changing payload.status lead) lead.status stored
              db),
    )
