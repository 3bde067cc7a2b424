-- ===== src/Integrations/AccountingSync.antt =====
-- `_sync_financial_record` of backend/app/tasks/accounting_sync.py, against any provider. The
-- provider's API, the encryption of tokens and the rows that row-level security shows are arguments.
pub mod Keeps
pub mod Recorded
pub mod Tokens
use package.text.Mathlib.Text.{◌==◌ as str_eq}
use new_builders_stream.Prelude.{
  ℕ, ◌+◌, ◌==◌, ◌&&◌, ◌||◌, not, Bool, true, false, if◌then◌else◌, Option, none, some, String, List,
  [], ◌∷◌,
}
use new_builders_stream.Prelude.Table.{find, replace}
use new_builders_stream.Models.{InvoicePayment}
use new_builders_stream.Integrations.Payload.{
  EntityType, invoice, same_type, Books, FinancialRecord, of_payment, find_record, Payload,
  set_item, Texts, serialize, RefSpec, local_key,
}
use new_builders_stream.Integrations.Provider.{
  IntegrationConnection, IntegrationEntityMapping, IntegrationSyncRecord, SyncStatus, success,
  failed, is_success, SyncTables, Failure, auth_error, failure, message_of, Outcome, done, raised,
  AccountingProviderClient, AccountingTokens, Vault, SyncState, Task, pure, raise, or_raise, call,
  ◌>>=◌, ◌>>◌, modify, gets, commit, on_auth_error,
}

abbrev pub same_record : ℕ → EntityType → ℕ → IntegrationSyncRecord → Bool
same_record connection_id entity_type entity_id r =
    r.connection_id == connection_id
    && (same_type r.entity_type entity_type && r.entity_id == entity_id)

unfoldable pub find_sync_record :
    ℕ → EntityType → ℕ → List IntegrationSyncRecord → Option IntegrationSyncRecord
find_sync_record c t i [] = none
find_sync_record c t i (r ∷ rows) =
    if same_record c t i r then some r else find_sync_record c t i rows

-- `coalesce(new, old)`.
abbrev pub coalesce : {A : Type 0} → Option A → Option A → Option A
coalesce none old = old
coalesce (some a) old = some a

-- INSERT … ON CONFLICT (connection_id, entity_type, entity_id) DO UPDATE.
unfoldable pub upsert_sync_record :
    IntegrationConnection
    → EntityType
    → ℕ
    → SyncStatus
    → Option String
    → Option String
    → List IntegrationSyncRecord
    → List IntegrationSyncRecord
upsert_sync_record connection entity_type entity_id status last_error external_record_id [] =
    record {
      company_id = connection.company_id;
      connection_id = connection.id;
      entity_type = entity_type;
      entity_id = entity_id;
      status = status;
      attempt_count = 1;
      last_error = last_error;
      external_record_id = external_record_id;
    }
    ∷ []
upsert_sync_record connection entity_type entity_id status last_error external_record_id
      (r ∷ rows) =
    if same_record connection.id entity_type entity_id r
    then record r {
      status = status;
      attempt_count = r.attempt_count + 1;
      last_error = last_error;
      external_record_id = coalesce external_record_id r.external_record_id;
    }
      ∷ rows
    else r
      ∷ upsert_sync_record connection entity_type entity_id status last_error external_record_id
          rows

-- The provider's id of an invoice that has synced, if it is not empty.
unfoldable pub external_invoice_id : ℕ → ℕ → List IntegrationSyncRecord → Option String
external_invoice_id connection_id invoice_id rows =
    elim (find_sync_record connection_id invoice invoice_id rows) [
      | none ↦ none
      | some r ↦ elim r.external_record_id [
        | none ↦ none
        | some text ↦ if is_success r.status && not (str_eq text "") then some text else none
      ]
    ]

unfoldable pub find_mapping : ℕ → String → String → List IntegrationEntityMapping → Option String
find_mapping connection_id kind key [] = none
find_mapping connection_id kind key (m ∷ rows) =
    if m.connection_id == connection_id && (str_eq m.entity_kind kind && str_eq m.local_key key)
    then some m.provider_entity_id
    else find_mapping connection_id kind key rows

abbrev pub text_or_empty : Option String → String
text_or_empty none = ""
text_or_empty (some text) = text

module _ {W : Type 0} (texts : Texts) (vault : Vault)
    (client_of : String → AccountingProviderClient W) (books : Books) where
  -- A payment names the provider's id of its invoice.
  unfoldable pub with_invoice : IntegrationConnection → FinancialRecord → Payload → Task W Payload
  with_invoice connection (of_payment r) payload = do
    found ← gets λ db. external_invoice_id connection.id r.invoice_id db.sync_records
    external_id ←
        or_raise (failure "This payment's invoice has not synced to the provider yet") found
    pure (set_item "external_invoice_id" external_id payload)
  with_invoice connection r payload = pure payload

  module _ (client : AccountingProviderClient W) where
    -- A cached id, or the provider's, which is cached.
    unfoldable pub provider_id :
        IntegrationConnection → RefSpec → String → String → String → Option String → Task W String
    provider_id connection spec key access_token account_id (some cached) = pure cached
    provider_id connection spec key access_token account_id none = do
      found ← call (client.resolve_entity access_token account_id spec.kind key)
      modify λ db. record db {
        mappings =
            record {
              company_id = connection.company_id;
              connection_id = connection.id;
              entity_kind = spec.kind;
              local_key = key;
              provider_entity_id = found;
            }
            ∷ db.mappings;
      }
      pure found

    unfoldable pub resolve_refs :
        IntegrationConnection → String → String → List RefSpec → Payload → Task W Payload
    resolve_refs connection access_token account_id [] payload = pure payload
    resolve_refs connection access_token account_id (spec ∷ specs) payload = do
      key ← or_raise (failure "Cannot sync: no name to match on") (local_key spec payload)
      cached ← gets λ db. find_mapping connection.id spec.kind key db.mappings
      found ← provider_id connection spec key access_token account_id cached
      resolve_refs connection access_token account_id specs
          (set_item spec.payload_key found payload)

    -- The new tokens are committed before anything else happens.
    unfoldable pub refresh_and_persist : IntegrationConnection → Task W String
    refresh_and_persist connection = do
      refresh_token ←
          or_raise (failure "InvalidToken") (vault.decrypt_token connection.refresh_token_encrypted)
      tokens ← call (client.refresh_access_token refresh_token)
      let refreshed : IntegrationConnection = record connection {
        access_token_encrypted = vault.encrypt_token tokens.access_token;
        refresh_token_encrypted = vault.encrypt_token tokens.refresh_token;
      }
      modify λ db. record db { connections = replace (λ c. c.id) refreshed db.connections }
      commit
      pure tokens.access_token

    unfoldable pub push_or_refresh :
        IntegrationConnection → EntityType → ℕ → String → String → Payload → Task W String
    push_or_refresh connection entity_type entity_id access_token account_id payload st =
        on_auth_error (call (client.push entity_type access_token account_id payload entity_id) st)
          (refresh_and_persist connection >>= λ refreshed.
            call (client.push entity_type refreshed account_id payload entity_id))

  -- The body of the `try`.
  unfoldable pub sync_record : IntegrationConnection → EntityType → ℕ → Task W String
  sync_record connection entity_type entity_id = do
    r ←
        or_raise (failure "No row was found when one was required")
          (find_record entity_type entity_id books)
    access_token ←
        or_raise (failure "InvalidToken") (vault.decrypt_token connection.access_token_encrypted)
    let client = client_of connection.provider
    let account_id = text_or_empty connection.provider_account_id
    or_raise (failure "This connection predates the provider account id being stored")
        (if client.is_fake || not (str_eq account_id "") then some tt else none)
    payload ← with_invoice connection r (serialize texts books r)
    resolved ←
        resolve_refs client connection access_token account_id (client.required_refs entity_type)
          payload
    push_or_refresh client connection entity_type entity_id access_token account_id resolved

  unfoldable pub write_outcome :
      IntegrationConnection
      → EntityType
      → ℕ
      → Outcome String × SyncState W
      → Outcome (Unit {0}) × SyncState W
  write_outcome connection entity_type entity_id (done external_record_id, st) =
      (modify (λ db. record db {
        sync_records =
            upsert_sync_record connection entity_type entity_id success none
              (some external_record_id) db.sync_records;
      })
          >> commit)
        st
  write_outcome connection entity_type entity_id (raised f, st) =
      (modify (λ db. record db {
        sync_records =
            upsert_sync_record connection entity_type entity_id failed (some (message_of f)) none
              db.sync_records;
      })
          >> commit
          >> raise f)
        st

  -- A session begins with what is committed.
  unfoldable pub sync_financial_record :
      ℕ → EntityType → ℕ → SyncTables → W → Outcome (Unit {0}) × SyncState W
  sync_financial_record connection_id entity_type entity_id durable world =
      let st : SyncState W = record { durable = durable; tables = durable; world = world } in
      elim (find (λ c. c.id) connection_id durable.connections) [
        | none ↦ (done tt, st)
        | some connection ↦
            write_outcome connection entity_type entity_id
              (sync_record connection entity_type entity_id st)
      ]
