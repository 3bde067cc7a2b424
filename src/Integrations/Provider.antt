-- ===== src/Integrations/Provider.antt =====
-- A task that talks to an accounting provider: the rows of backend/app/models/integration_connection.py,
-- integration_entity_mapping.py and integration_sync_record.py, the clients of
-- backend/app/services/accounting_client.py, and the session of backend/app/tasks/accounting_sync.py
-- with its commits.
use new_builders_stream.Prelude.{ℕ, Bool, true, false, Option, none, some, String, List}
use new_builders_stream.Integrations.Payload.{EntityType, Payload, RefSpec}

pub record IntegrationConnection : Type 0 where
  pub id : ℕ
  pub company_id : ℕ
  pub provider : String
  pub provider_account_id : Option String
  pub access_token_encrypted : String
  pub refresh_token_encrypted : String

pub record IntegrationEntityMapping : Type 0 where
  pub company_id : ℕ
  pub connection_id : ℕ
  pub entity_kind : String
  pub local_key : String
  pub provider_entity_id : String

pub data SyncStatus : Type 0 where
  pending success failed : SyncStatus

abbrev pub is_success : SyncStatus → Bool
is_success success = true
is_success _ = false

pub record IntegrationSyncRecord : Type 0 where
  pub company_id : ℕ
  pub connection_id : ℕ
  pub entity_type : EntityType
  pub entity_id : ℕ
  pub status : SyncStatus
  pub attempt_count : ℕ
  pub last_error : Option String
  pub external_record_id : Option String

pub record SyncTables : Type 0 where
  pub connections : List IntegrationConnection
  pub mappings : List IntegrationEntityMapping
  pub sync_records : List IntegrationSyncRecord

pub data Failure : Type 0 where
  -- AccountingAuthError, and every other exception
  auth_error failure : String → Failure

abbrev pub message_of : Failure → String
message_of (auth_error text) = text
message_of (failure text) = text

pub data Outcome (A : Type 0) : Type 0 where
  done : A → Outcome A
  raised : Failure → Outcome A

pub record AccountingTokens : Type 0 where
  pub access_token : String
  pub refresh_token : String

-- The client of a provider; W is what the provider keeps, and each call may raise.
pub record AccountingProviderClient (W : Type 0) : Type 0 where
  pub is_fake : Bool
  pub required_refs : EntityType → List RefSpec
  pub resolve_entity : String → String → String → String → W → Outcome String × W
  pub push : EntityType → String → String → Payload → ℕ → W → Outcome String × W
  pub refresh_access_token : String → W → Outcome AccountingTokens × W

pub record Vault : Type 0 where
  pub encrypt_token : String → String
  pub decrypt_token : String → Option String

-- What is committed, what the session shows, and what the provider keeps.
pub record SyncState (W : Type 0) : Type 0 where
  pub durable : SyncTables
  pub tables : SyncTables
  pub world : W

abbrev pub Task : Type 0 → Type 0 → Type 0
Task W A = SyncState W → Outcome A × SyncState W

module _ {W : Type 0} where
  module _ {A : Type 0} where
    abbrev pub pure : A → Task W A
    pure a st = (done a, st)

    abbrev pub raise : Failure → Task W A
    raise f st = (raised f, st)

    abbrev pub or_raise : Failure → Option A → Task W A
    or_raise f none st = (raised f, st)
    or_raise f (some a) st = (done a, st)

    abbrev pub on_world : Outcome A × W → SyncState W → Outcome A × SyncState W
    on_world answer st = (answer.0, record st { world = answer.1 })

    -- A call of the provider.
    abbrev pub call : (W → Outcome A × W) → Task W A
    call f st = on_world (f st.world) st

  abbrev pub resume :
      {A B : Type 0} → Outcome A × SyncState W → (A → Task W B) → Outcome B × SyncState W
  resume (done a, st) k = k a st
  resume (raised f, st) k = (raised f, st)

  infixl 5 ◌>>=◌ ◌>>◌
  abbrev pub ◌>>=◌ : {A B : Type 0} → Task W A → (A → Task W B) → Task W B
  ◌>>=◌ m k st = resume (m st) k

  abbrev pub ◌>>◌ : {A B : Type 0} → Task W A → Task W B → Task W B
  m >> k = m >>= λ _. k

  abbrev pub modify : (SyncTables → SyncTables) → Task W (Unit {0})
  modify f st = (done tt, record st { tables = f st.tables })

  abbrev pub gets : {A : Type 0} → (SyncTables → A) → Task W A
  gets f st = (done (f st.tables), st)

  abbrev pub commit : Task W (Unit {0})
  commit st = (done tt, record st { durable = st.tables })

  -- `try` and `except AccountingAuthError`.
  abbrev pub on_auth_error :
      {A : Type 0} → Outcome A × SyncState W → Task W A → Outcome A × SyncState W
  on_auth_error (done a, st) handler = (done a, st)
  on_auth_error (raised (auth_error text), st) handler = handler st
  on_auth_error (raised (failure text), st) handler = (raised (failure text), st)
