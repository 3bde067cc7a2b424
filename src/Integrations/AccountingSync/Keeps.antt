-- ===== src/Integrations/AccountingSync/Keeps.antt =====
-- Properties of the session that each step of a sync keeps.
use new_builders_stream.Prelude.{
  ℕ, ◌≡◌, refl, ◌⊎◌, inl, inr, Option-cases, Option, none, some, String, List, [], ◌∷◌,
}
use new_builders_stream.Prelude.Table.{replace}
use new_builders_stream.Integrations.Payload.{
  EntityType, Books, FinancialRecord, of_invoice, of_expense, of_bill, of_payment, Payload,
  set_item, Texts, RefSpec,
}
use new_builders_stream.Integrations.Provider.{
  IntegrationConnection, IntegrationEntityMapping, SyncTables, Failure, Outcome, done, raised,
  AccountingProviderClient, AccountingTokens, Vault, SyncState, Task, pure, or_raise, call, gets,
  resume, ◌>>=◌, on_auth_error, auth_error, failure,
}
use new_builders_stream.Integrations.AccountingSync.{
  provider_id, resolve_refs, with_invoice, refresh_and_persist, push_or_refresh, sync_record,
}

pub record Keeps {W A : Type 0} (P : SyncState W → Type 0) (m : Task W A) : Type 0 where
  pub keep : (st : SyncState W) → P st → P (m st).1

module _ {W : Type 0} {P : SyncState W → Type 0} where
  module _ {A : Type 0} where
    pub Keeps-pure : (a : A) → Keeps P (pure a)
    Keeps-pure a = record { keep = λ st p. p }

    pub Keeps-or_raise : (f : Failure) (o : Option A) → Keeps P (or_raise f o)
    Keeps-or_raise f o = record { keep = λ st p. go o st p }
      where
        go : (o : Option A) (st : SyncState W) → P st → P (or_raise f o st).1
        go none st p = p
        go (some a) st p = p

    pub Keeps-gets : (f : SyncTables → A) → Keeps P (gets f)
    Keeps-gets f = record { keep = λ st p. p }

    pub Keeps-bind :
        {B : Type 0} (m : Task W A) (k : A → Task W B)
        → Keeps P m
        → ((a : A) → Keeps P (k a))
        → Keeps P (m >>= k)
    Keeps-bind {B} m k hm hk = record { keep = λ st p. go (m st) (hm.keep st p) }
      where
        go : (r : Outcome A × SyncState W) → P r.1 → P (resume r k).1
        go (done a, st) p = (hk a).keep st p
        go (raised f, st) p = p

  pub ruleset keeps_rules = (Keeps-pure, Keeps-or_raise, Keeps-gets, Keeps-bind)

-- A property of the session that the calls of a client and a new mapping keep.
pub record Stable {W : Type 0} (client : AccountingProviderClient W) (P : SyncState W → Type 0)
    : Type 0 where
  pub resolves :
      (access_token account_id kind name : String)
      → Keeps P (call (client.resolve_entity access_token account_id kind name))
  pub pushes :
      (entity_type : EntityType) (access_token account_id : String) (payload : Payload) (i : ℕ)
      → Keeps P (call (client.push entity_type access_token account_id payload i))
  pub maps :
      (m : IntegrationEntityMapping) (st : SyncState W)
      → P st
      → P (record st { tables = record st.tables { mappings = m ∷ st.tables.mappings } })

module _ {W : Type 0} (texts : Texts) (vault : Vault)
    (client_of : String → AccountingProviderClient W) (books : Books)
    (P : SyncState W → Type 0) where
  with_invoice-Keeps :
      (connection : IntegrationConnection) (r : FinancialRecord) (payload : Payload)
      → Keeps P (with_invoice texts vault client_of books connection r payload)
  unfolding with_invoice
  with_invoice-Keeps connection (of_invoice r) payload = search keeps_rules
  with_invoice-Keeps connection (of_expense r) payload = search keeps_rules
  with_invoice-Keeps connection (of_bill r) payload = search keeps_rules
  with_invoice-Keeps connection (of_payment r) payload = search keeps_rules

  module _ (client : AccountingProviderClient W) (stable : Stable client P) where
    provider_id-Keeps :
        (connection : IntegrationConnection) (spec : RefSpec) (key access_token account_id : String)
        (cached : Option String)
        → Keeps P (
            provider_id texts vault client_of books client connection spec key access_token
              account_id cached)
    unfolding provider_id
    provider_id-Keeps connection spec key access_token account_id (some cached) = Keeps-pure cached
    provider_id-Keeps connection spec key access_token account_id none =
        Keeps-bind _ _ (stable.resolves access_token account_id spec.kind key)
          λ found. record { keep = λ st p. stable.maps _ st p }

    pub resolve_refs-Keeps :
        (connection : IntegrationConnection) (access_token account_id : String)
        (specs : List RefSpec) (payload : Payload)
        → Keeps P (
            resolve_refs texts vault client_of books client connection access_token account_id specs
              payload)
    unfolding resolve_refs
    resolve_refs-Keeps connection access_token account_id [] payload = Keeps-pure payload
    resolve_refs-Keeps connection access_token account_id (spec ∷ specs) payload =
        Keeps-bind _ _ (Keeps-or_raise _ _) λ key. Keeps-bind _ _ (Keeps-gets _) λ cached.
          Keeps-bind _ _ (provider_id-Keeps connection spec key access_token account_id cached)
            λ found.
              resolve_refs-Keeps connection access_token account_id specs
                (set_item spec.payload_key found payload)

-- From one property to another, which holds also where the chain stops early.
pub record Leads {W A : Type 0} (P Q : SyncState W → Type 0) (m : Task W A) : Type 0 where
  pub lead : (st : SyncState W) → P st → Q (m st).1

pub Leads-bind :
    {W A B : Type 0} {P Q : SyncState W → Type 0} (m : Task W A) (k : A → Task W B)
    → ((st : SyncState W) → P st → Q st)
    → Keeps P m
    → ((a : A) → Leads P Q (k a))
    → Leads P Q (m >>= k)
Leads-bind {W} {A} {B} {P} {Q} m k weaken hm hk = record { lead = λ st p. go (m st) (hm.keep st p) }
  where
    go : (r : Outcome A × SyncState W) → P r.1 → Q (resume r k).1
    go (done a, st) p = (hk a).lead st p
    go (raised f, st) p = weaken st p

-- What a provider answers.
answer-cases :
    {A W : Type 0} (r : Outcome A × W)
    → ((a : A) × (w : W) × (r ≡ (done a, w))) ⊎ ((f : Failure) × (w : W) × (r ≡ (raised f, w)))
answer-cases (done a, w) = inl (a, w, refl)
answer-cases (raised f, w) = inr (f, w, refl)

-- The connection with new tokens, and the session after its commit.
abbrev pub with_tokens : Vault → AccountingTokens → IntegrationConnection → IntegrationConnection
with_tokens vault tokens connection = record connection {
  access_token_encrypted = vault.encrypt_token tokens.access_token;
  refresh_token_encrypted = vault.encrypt_token tokens.refresh_token;
}

abbrev pub after_refresh :
    {W : Type 0} → Vault → AccountingTokens → IntegrationConnection → W → SyncState W → SyncState W
after_refresh vault tokens connection w st =
    let tables : SyncTables = record st.tables {
      connections = replace (λ c. c.id) (with_tokens vault tokens connection) st.tables.connections;
    } in
    record { durable = tables; tables = tables; world = w }

module _ {W : Type 0} (texts : Texts) (vault : Vault)
    (client_of : String → AccountingProviderClient W) (books : Books) (P Q : SyncState W → Type 0)
    (connection : IntegrationConnection) where
  -- The body of the `try` up to the first push, whatever is known of the push.
  pub sync_record-Leads :
      (entity_type : EntityType) (i : ℕ)
      → Stable (client_of connection.provider) P
      → ((st : SyncState W) → P st → Q st)
      → ((access_token account_id : String) (payload : Payload)
          → Leads P Q (
              push_or_refresh texts vault client_of books
                (client_of connection.provider)
                connection
                entity_type
                i
                access_token
                account_id
                payload))
      → Leads P Q (sync_record texts vault client_of books connection entity_type i)
  unfolding sync_record
  sync_record-Leads entity_type i stable weaken pushed =
      search (keeps_rules, Leads-bind, with_invoice-Keeps, resolve_refs-Keeps) depth 16

  -- The first push, the refresh after an authentication error, and the second push.
  pub push_or_refresh-Leads :
      (client : AccountingProviderClient W) (entity_type : EntityType) (i : ℕ)
      (access_token account_id : String) (payload : Payload)
      → Stable client P
      → Stable client Q
      → ((st : SyncState W) → P st → Q st)
      → Leads P Q (refresh_and_persist texts vault client_of books client connection)
      → Leads P Q (
          push_or_refresh texts vault client_of books client connection entity_type i access_token
            account_id payload)
  unfolding push_or_refresh
  push_or_refresh-Leads client entity_type i access_token account_id payload before after weaken
        refreshes =
      record {
        lead = λ st p.
            go (call (client.push entity_type access_token account_id payload i) st)
              ((before.pushes entity_type access_token account_id payload i).keep st p);
      }
    where
      again : Task W String
      again = refresh_and_persist texts vault client_of books client connection >>= λ refreshed.
          call (client.push entity_type refreshed account_id payload i)

      second :
          (r : Outcome String × SyncState W)
          → Q r.1
          → Q
              (resume r
                (λ refreshed. call (client.push entity_type refreshed account_id payload i))).1
      second (done a, st) q = (after.pushes entity_type a account_id payload i).keep st q
      second (raised f, st) q = q

      go : (r : Outcome String × SyncState W) → P r.1 → Q (on_auth_error r again).1
      go (done a, st) p = weaken st p
      go (raised (auth_error text), st) p =
          second (refresh_and_persist texts vault client_of books client connection st)
            (refreshes.lead st p)
      go (raised (failure text), st) p = weaken st p

  -- A refresh, by what the provider answers.
  pub refresh-Leads :
      (client : AccountingProviderClient W)
      → ((st : SyncState W) → P st → Q st)
      → ((token : String) (st : SyncState W) (tokens : AccountingTokens) (w : W)
          → P st
          → vault.decrypt_token connection.refresh_token_encrypted ≡ some token
          → client.refresh_access_token token st.world ≡ (done tokens, w)
          → Q (after_refresh vault tokens connection w st))
      → ((token : String) (st : SyncState W) (f : Failure) (w : W)
          → P st
          → client.refresh_access_token token st.world ≡ (raised f, w)
          → Q (record st { world = w }))
      → Leads P Q (refresh_and_persist texts vault client_of books client connection)
  unfolding refresh_and_persist
  refresh-Leads client weaken issues refuses = record {
    lead = λ st p. elim (Option-cases (vault.decrypt_token connection.refresh_token_encrypted)) [
      | inl e ↦ rw e (weaken st p)
      | inr (token, e) ↦ rw e (elim (answer-cases (client.refresh_access_token token st.world)) [
        | inl (tokens, w, q) ↦ rw q (issues token st tokens w p e q)
        | inr (f, w, q) ↦ rw q (refuses token st f w p q)
      ])
    ];
  }
