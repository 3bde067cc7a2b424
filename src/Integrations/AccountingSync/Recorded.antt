-- ===== src/Integrations/AccountingSync/Recorded.antt =====
-- What a sync writes down of its outcome.
use new_builders_stream.Prelude.{
  ℕ, ◌+◌, ◌≡◌, refl, sym, ap, ◌∙◌, Bool, true, false, Bool-cases, inl, inr, is_none, if◌then◌else◌,
  Option, none, some, String, List, [], ◌∷◌, arith,
}
use mathlib.Core.Path.{subst}
use new_builders_stream.Prelude.Table.{find}
use new_builders_stream.Integrations.Payload.{EntityType, same_type, Books, Texts}
use new_builders_stream.Integrations.Provider.{
  IntegrationConnection, IntegrationSyncRecord, SyncStatus, success, failed, is_success, SyncTables,
  message_of, Outcome, done, raised, AccountingProviderClient, Vault, SyncState,
}
use new_builders_stream.Integrations.AccountingSync.{
  find_sync_record, same_record, coalesce, upsert_sync_record, sync_record, write_outcome,
  sync_financial_record,
}
use new_builders_stream.Integrations.AccountingSync.Keeps.{
  Stable, Leads, sync_record-Leads, push_or_refresh-Leads, refresh-Leads,
}

-- The attempts that the records hold, and the provider's id.
abbrev pub attempts : Option IntegrationSyncRecord → ℕ
attempts none = 0
attempts (some r) = r.attempt_count

abbrev pub external_id : Option IntegrationSyncRecord → Option String
external_id none = none
external_id (some r) = r.external_record_id

same_type_self : (t : EntityType) → same_type t t ≡ true
same_type_self EntityType.invoice = refl
same_type_self EntityType.expense = refl
same_type_self EntityType.bill = refl
same_type_self EntityType.payment = refl

coalesce-none : {A : Type 0} (o : Option A) → o ≡ coalesce o none
coalesce-none none = refl
coalesce-none (some a) = refl

-- The record that is found after an upsert.
upserted :
    (c : IntegrationConnection) (t : EntityType) (i : ℕ) (status : SyncStatus)
    (last_error ext : Option String) (rows : List IntegrationSyncRecord)
    → let old = find_sync_record c.id t i rows in
      (r : IntegrationSyncRecord) × (find_sync_record c.id t i
          (upsert_sync_record c t i status last_error ext rows)
        ≡ some r)
      × (r.status ≡ status)
      × (r.attempt_count ≡ attempts old + 1)
      × (r.last_error ≡ last_error)
      × (r.external_record_id ≡ coalesce ext (external_id old))
unfolding find_sync_record upsert_sync_record
upserted c t i status last_error ext [] = (
  record {
    company_id = c.company_id;
    connection_id = c.id;
    entity_type = t;
    entity_id = i;
    status = status;
    attempt_count = 1;
    last_error = last_error;
    external_record_id = ext;
  },
  ground (arith, same_type_self t),
  refl,
  refl,
  refl,
  coalesce-none ext,
)
upserted c t i status last_error ext (r ∷ rows) = elim (Bool-cases (same_record c.id t i r)) [
  | inl same ↦ rw same (
    record r {
      status = status;
      attempt_count = r.attempt_count + 1;
      last_error = last_error;
      external_record_id = coalesce ext r.external_record_id;
    },
    rw same refl,
    refl,
    refl,
    refl,
    refl,
  )
  | inr other ↦ rw (other, other) (upserted c t i status last_error ext rows)
]

abbrev pub is_done : {A : Type 0} → Outcome A → Bool
is_done (done a) = true
is_done (raised f) = false

module _ {W : Type 0} (texts : Texts) (vault : Vault)
    (client_of : String → AccountingProviderClient W) (books : Books) where
  -- The session still shows the records that were there.
  HasRecords : List IntegrationSyncRecord → SyncState W → Type 0
  HasRecords rows st = st.tables.sync_records ≡ rows

  HasRecords-Stable :
      (rows : List IntegrationSyncRecord) (client : AccountingProviderClient W)
      → Stable client (HasRecords rows)
  unfolding HasRecords
  HasRecords-Stable rows client = record {
    resolves = λ a b c d. record { keep = λ st p. p };
    pushes = λ a b c d e. record { keep = λ st p. p };
    maps = λ m st p. p;
  }

  sync_record-HasRecords :
      (rows : List IntegrationSyncRecord) (connection : IntegrationConnection) (t : EntityType)
      (i : ℕ)
      → Leads
          (HasRecords rows)
          (HasRecords rows)
          (sync_record texts vault client_of books connection t i)
  unfolding HasRecords
  sync_record-HasRecords rows connection t i =
      let stable = HasRecords-Stable rows (client_of connection.provider) in
      sync_record-Leads texts vault client_of books _ _ connection t i stable (λ st p. p)
        λ access_token account_id payload.
          push_or_refresh-Leads texts vault client_of books _ _ connection
            (client_of connection.provider) t i access_token account_id payload stable stable
            (λ st p. p)
            (refresh-Leads texts vault client_of books _ _ connection
              (client_of connection.provider) (λ st p. p) (λ token st tokens w p e q. p)
              (λ token st f w p q. p))

  -- What is written of an outcome, for what was recorded before.
  Written :
      Option IntegrationSyncRecord
      → IntegrationConnection
      → EntityType
      → ℕ
      → Outcome (Unit {0}) × SyncState W
      → Type 0
  Written old connection t entity_id ran =
      (r : IntegrationSyncRecord) × (find_sync_record connection.id t entity_id
          ran.1.durable.sync_records
        ≡ some r)
      × (r.attempt_count ≡ attempts old + 1)
      × (is_success r.status ≡ is_done ran.0)
      × (is_none r.last_error ≡ is_done ran.0)
      × ((if is_done ran.0 then external_id old else r.external_record_id) ≡ external_id old)
      × (ran.1.durable ≡ ran.1.tables)

  write_outcome-Written :
      (rows : List IntegrationSyncRecord) (connection : IntegrationConnection) (t : EntityType)
      (i : ℕ) (r : Outcome String × SyncState W)
      → HasRecords rows r.1
      → Written
          (find_sync_record connection.id t i rows)
          connection
          t
          i
          (write_outcome texts vault client_of books connection t i r)
  unfolding write_outcome HasRecords Written
  write_outcome-Written rows connection t i (done ext, st) p =
      let (s, found, status, count, error, _) =
        upserted connection t i success none (some ext) st.tables.sync_records in
      (
        s,
        found,
        count ∙ ap (λ x. attempts (find_sync_record connection.id t i x) + 1) p,
        ap is_success status,
        ap is_none error,
        refl,
        refl,
      )
  write_outcome-Written rows connection t i (raised f, st) p =
      let (s, found, status, count, error, kept) =
        upserted connection t i failed (some (message_of f)) none st.tables.sync_records in
      (
        s,
        found,
        count ∙ ap (λ x. attempts (find_sync_record connection.id t i x) + 1) p,
        ap is_success status,
        ap is_none error,
        kept ∙ ap (λ x. external_id (find_sync_record connection.id t i x)) p,
        refl,
      )

  pub sync_financial_record-runs :
      (connection : IntegrationConnection) (i : ℕ) (t : EntityType) (entity_id : ℕ)
      (tables : SyncTables) (world : W)
      → find (λ c. c.id) i tables.connections ≡ some connection
      → sync_financial_record texts vault client_of books i t entity_id tables world
        ≡ write_outcome texts vault client_of books connection t entity_id (
            sync_record texts vault client_of books connection t entity_id
              (record { durable = tables; tables = tables; world = world }))
  unfolding sync_financial_record
  sync_financial_record-runs connection i t entity_id tables world here =
      rw (here, sync_financial_record) refl

  -- When the task has found its connection, the record for it and the row has counted one more attempt;
  -- it is successful, without an error, exactly if the task returned; a failed attempt keeps the
  -- provider's id of an earlier one; and everything that the task wrote is committed.
  pub sync_financial_record_lem :
      (connection : IntegrationConnection) (i : ℕ) (t : EntityType) (entity_id : ℕ)
      (tables : SyncTables) (world : W)
      → find (λ c. c.id) i tables.connections ≡ some connection
      → let ran = sync_financial_record texts vault client_of books i t entity_id tables world in
        let old = find_sync_record connection.id t entity_id tables.sync_records in
        (r : IntegrationSyncRecord) × (find_sync_record connection.id t entity_id
            ran.1.durable.sync_records
          ≡ some r)
        × (r.attempt_count ≡ attempts old + 1)
        × (is_success r.status ≡ is_done ran.0)
        × (is_none r.last_error ≡ is_done ran.0)
        × ((if is_done ran.0 then external_id old else r.external_record_id) ≡ external_id old)
        × (ran.1.durable ≡ ran.1.tables)
  unfolding Written HasRecords
  sync_financial_record_lem connection i t entity_id tables world here =
      let old = find_sync_record connection.id t entity_id tables.sync_records in
      let begun : SyncState W = record { durable = tables; tables = tables; world = world } in
      subst (Written old connection t entity_id)
        (sym (sync_financial_record-runs connection i t entity_id tables world here))
        (write_outcome-Written tables.sync_records connection t entity_id
          (sync_record texts vault client_of books connection t entity_id begun)
          ((sync_record-HasRecords tables.sync_records connection t entity_id).lead begun refl))
