-- ===== src/Tests/SyncRuns.antt =====
-- An expense that is pushed with an access token that has expired.
use package.text.Mathlib.Text.{◌==◌ as str_eq}
use new_builders_stream.Prelude.{
  ◌+◌, ◌≡◌, refl, if◌then◌else◌, is_none, false, none, some, String, [], ◌∷◌,
}
use new_builders_stream.Prelude.Int.{pos}
use new_builders_stream.Prelude.Table.{find, replace}
use new_builders_stream.Integrations.Payload.{expense, Books, Texts, find_record, serialize}
use new_builders_stream.Integrations.Provider.{
  IntegrationConnection, IntegrationSyncRecord, SyncTables, failed, success, auth_error, is_success,
  done, raised, AccountingProviderClient, Vault,
}
use new_builders_stream.Integrations.AccountingSync.{
  find_sync_record, upsert_sync_record, resolve_refs, refresh_and_persist, push_or_refresh,
  with_invoice, sync_record, write_outcome, sync_financial_record,
}
use new_builders_stream.Integrations.AccountingSync.Recorded.{
  attempts, external_id, is_done, sync_financial_record_lem,
}
use new_builders_stream.Integrations.AccountingSync.Tokens.{
  Rotates, IsUsable, sync_financial_record-IsUsable,
}

-- The provider keeps the one refresh token that it accepts.
abbrev rotating : AccountingProviderClient String
rotating = record {
  is_fake = false;
  required_refs = λ t. [];
  resolve_entity = λ a b c d w. (done "9", w);
  push = λ t access_token a p i w.
      (if str_eq access_token "fresh" then done "ext-1" else raised (auth_error "401"), w);
  refresh_access_token =
      λ old w. (done (record { access_token = "fresh"; refresh_token = "second" }), "second");
}

Accepts : String → String → Type 0
Accepts w token = w ≡ token

rotating-Rotates : Rotates rotating Accepts
unfolding Accepts
rotating-Rotates = record {
  resolve_keeps = λ a b k n t w h. h;
  push_keeps = λ e a b p i t w h. h;
  refusal_keeps = λ old t f w w' q h. absurd (cc);
  issues = λ old tokens w w' q. cc;
}

abbrev plain : Vault
plain = record { encrypt_token = λ t. t; decrypt_token = some }

abbrev connected : IntegrationConnection
connected = record {
  id = 40;
  company_id = 2;
  provider = "quickbooks";
  provider_account_id = some "realm";
  access_token_encrypted = "stale";
  refresh_token_encrypted = "first";
}

abbrev tried_once : IntegrationSyncRecord
tried_once = record {
  company_id = 2;
  connection_id = 40;
  entity_type = expense;
  entity_id = 7;
  status = failed;
  attempt_count = 1;
  last_error = some "timeout";
  external_record_id = none;
}

abbrev stored : SyncTables
stored = record { connections = connected ∷ []; mappings = []; sync_records = tried_once ∷ [] }

abbrev texts : Texts
texts = record { amount_text = λ a. "12.00"; number_text = λ n. "INV"; isoformat = λ d. "day" }

abbrev books : Books
books = record {
  invoices = [];
  expenses = record { id = 7; description = "Fuel"; amount = pos 1200 } ∷ [];
  bills = [];
  invoice_payments = [];
  project_clients = [];
  users = [];
}

found_connection : find (λ c. c.id) 40 stored.connections ≡ some connected
unfolding find
found_connection = refl

-- The refresh goes through and the second push succeeds.
pushed_again :
    let ran = sync_financial_record texts plain (λ p. rotating) books 40 expense 7 stored "first" in
    ran.1.durable ≡ record {
      connections =
          record connected { access_token_encrypted = "fresh"; refresh_token_encrypted = "second" }
          ∷ [];
      mappings = [];
      sync_records =
          record tried_once {
            status = success;
            attempt_count = 2;
            last_error = none;
            external_record_id = some "ext-1";
          }
          ∷ [];
    }
unfolding sync_financial_record sync_record write_outcome find_record serialize with_invoice
    resolve_refs push_or_refresh refresh_and_persist upsert_sync_record find replace
pushed_again = refl

sync_financial_record_lem_example :
    let ran = sync_financial_record texts plain (λ p. rotating) books 40 expense 7 stored "first" in
    let old = find_sync_record 40 expense 7 stored.sync_records in
    (r : IntegrationSyncRecord) × (find_sync_record 40 expense 7 ran.1.durable.sync_records
      ≡ some r)
    × (r.attempt_count ≡ attempts old + 1)
    × (is_success r.status ≡ is_done ran.0)
    × (is_none r.last_error ≡ is_done ran.0)
    × ((if is_done ran.0 then external_id old else r.external_record_id) ≡ external_id old)
    × (ran.1.durable ≡ ran.1.tables)
sync_financial_record_lem_example =
    sync_financial_record_lem texts plain (λ p. rotating) books connected 40 expense 7 stored
      "first" found_connection

first-IsUsable : IsUsable plain Accepts 40 "first" stored.connections connected
unfolding Accepts
first-IsUsable = record {
  stored = found_connection;
  token = "first";
  decrypts = refl;
  accepted = refl;
}

sync_financial_record-IsUsable_example :
    let ran = sync_financial_record texts plain (λ p. rotating) books 40 expense 7 stored "first" in
    (c : IntegrationConnection) × IsUsable plain Accepts 40 ran.1.world ran.1.durable.connections c
sync_financial_record-IsUsable_example =
    sync_financial_record-IsUsable texts plain (λ p. rotating) books Accepts 40 connected expense 7
      stored "first" rotating-Rotates (λ text. refl) first-IsUsable
