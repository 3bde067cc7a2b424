-- ===== src/Integrations/AccountingSync/Tokens.antt =====
-- The refresh token that is stored stays one that the provider accepts.
use mathlib.Core.Path.{subst}
use new_builders_stream.Prelude.{ℕ, ◌≡◌, refl, sym, some, String, List}
use new_builders_stream.Prelude.Table.{find, find-replace_own, replace}
use new_builders_stream.Integrations.Payload.{EntityType, Books, Payload, Texts}
use new_builders_stream.Integrations.Provider.{
  IntegrationConnection, SyncTables, Failure, Outcome, done, raised, AccountingProviderClient,
  AccountingTokens, Vault, SyncState,
}
use new_builders_stream.Integrations.AccountingSync.{
  sync_record, write_outcome, sync_financial_record,
}
use new_builders_stream.Integrations.AccountingSync.Keeps.{
  Stable, Leads, with_tokens, sync_record-Leads, push_or_refresh-Leads, refresh-Leads,
}
use new_builders_stream.Integrations.AccountingSync.Recorded.{sync_financial_record-runs}

-- What a provider promises of refresh tokens: it goes on accepting one until it has issued the next,
-- and it accepts the one that it has issued.
pub record Rotates {W : Type 0} (client : AccountingProviderClient W)
    (accepts : W → String → Type 0) : Type 0 where
  pub resolve_keeps :
      (access_token account_id kind name token : String) (w : W)
      → accepts w token
      → accepts (client.resolve_entity access_token account_id kind name w).1 token
  pub push_keeps :
      (entity_type : EntityType) (access_token account_id : String) (payload : Payload) (i : ℕ)
      (token : String) (w : W)
      → accepts w token
      → accepts (client.push entity_type access_token account_id payload i w).1 token
  pub refusal_keeps :
      (old token : String) (f : Failure) (w w' : W)
      → client.refresh_access_token old w ≡ (raised f, w')
      → accepts w token
      → accepts w' token
  pub issues :
      (old : String) (tokens : AccountingTokens) (w w' : W)
      → client.refresh_access_token old w ≡ (done tokens, w')
      → accepts w' tokens.refresh_token

-- The row stands in the table with a refresh token that the provider accepts.
pub record IsUsable {W : Type 0} (vault : Vault) (accepts : W → String → Type 0) (i : ℕ) (w : W)
    (connections : List IntegrationConnection) (c : IntegrationConnection) : Type 0 where
  pub stored : find (λ x. x.id) i connections ≡ some c
  pub token : String
  pub decrypts : vault.decrypt_token c.refresh_token_encrypted ≡ some token
  pub accepted : accepts w token

module _ {W : Type 0} (texts : Texts) (vault : Vault)
    (client_of : String → AccountingProviderClient W) (books : Books)
    (accepts : W → String → Type 0) (i : ℕ) where
  -- In what is committed, and in what the session shows.
  abbrev Both : IntegrationConnection → SyncState W → Type 0
  Both c st =
      IsUsable vault accepts i st.world st.durable.connections c
      × IsUsable vault accepts i st.world st.tables.connections c

  abbrev Some : SyncState W → Type 0
  Some st = (c : IntegrationConnection) × Both c st

  moved :
      (c : IntegrationConnection) (connections : List IntegrationConnection) (w w' : W)
      → ((token : String) → accepts w token → accepts w' token)
      → IsUsable vault accepts i w connections c
      → IsUsable vault accepts i w' connections c
  moved c connections w w' keeps u = record {
    stored = u.stored;
    token = u.token;
    decrypts = u.decrypts;
    accepted = keeps u.token u.accepted;
  }

  Both-Stable :
      (client : AccountingProviderClient W) (c : IntegrationConnection)
      → Rotates client accepts
      → Stable client (Both c)
  Both-Stable client c rotates = record {
    resolves = λ a b k n. record {
      keep = λ st p.
          let keeps = λ (t : String). rotates.resolve_keeps a b k n t st.world in
          (moved c _ _ _ keeps p.0, moved c _ _ _ keeps p.1);
    };
    pushes = λ e a b x n. record {
      keep = λ st p.
          let keeps = λ (t : String). rotates.push_keeps e a b x n t st.world in
          (moved c _ _ _ keeps p.0, moved c _ _ _ keeps p.1);
    };
    maps = λ m st p. p;
  }

  Some-Stable : (client : AccountingProviderClient W) → Rotates client accepts → Stable client Some
  Some-Stable client rotates = record {
    resolves = λ a b k n. record {
      keep = λ st p. (p.0, ((Both-Stable client p.0 rotates).resolves a b k n).keep st p.1);
    };
    pushes = λ e a b x n. record {
      keep = λ st p. (p.0, ((Both-Stable client p.0 rotates).pushes e a b x n).keep st p.1);
    };
    maps = λ m st p. p;
  }

  -- The row that a refresh has written.
  refreshed :
      (c : IntegrationConnection) (tokens : AccountingTokens) (w : W)
      (connections : List IntegrationConnection)
      → ((text : String) → vault.decrypt_token (vault.encrypt_token text) ≡ some text)
      → find (λ x. x.id) i connections ≡ some c
      → accepts w tokens.refresh_token
      → IsUsable vault accepts i w
          (replace (λ x. x.id) (with_tokens vault tokens c) connections)
          (with_tokens vault tokens c)
  refreshed c tokens w connections opens here accepted = record {
    stored = find-replace_own (λ x. x.id) (with_tokens vault tokens c) c i connections here refl;
    token = tokens.refresh_token;
    decrypts = opens tokens.refresh_token;
    accepted = accepted;
  }

  sync_record-Some :
      (c : IntegrationConnection) (t : EntityType) (entity_id : ℕ)
      → Rotates (client_of c.provider) accepts
      → ((text : String) → vault.decrypt_token (vault.encrypt_token text) ≡ some text)
      → Leads (Both c) Some (sync_record texts vault client_of books c t entity_id)
  sync_record-Some c t entity_id rotates opens =
      let client = client_of c.provider in
      sync_record-Leads texts vault client_of books _ _ c t entity_id (Both-Stable client c rotates)
        (λ st p. (c, p))
        λ access_token account_id payload.
          push_or_refresh-Leads texts vault client_of books _ _ c client t entity_id access_token
            account_id payload (Both-Stable client c rotates) (Some-Stable client rotates)
            (λ st p. (c, p))
            (refresh-Leads texts vault client_of books _ _ c client (λ st p. (c, p))
              (λ token st tokens w p e q.
                let new =
                  refreshed c tokens w st.tables.connections opens p.1.stored
                    (rotates.issues token tokens st.world w q) in
                (with_tokens vault tokens c, (new, new)))
              (λ token st f w p q.
                let keeps = λ (x : String). rotates.refusal_keeps token x f st.world w q in
                (c, (moved c _ _ _ keeps p.0, moved c _ _ _ keeps p.1))))

  write_outcome-Some :
      (connection : IntegrationConnection) (t : EntityType) (entity_id : ℕ)
      (r : Outcome String × SyncState W)
      → Some r.1
      → Some (write_outcome texts vault client_of books connection t entity_id r).1
  unfolding write_outcome
  write_outcome-Some connection t entity_id (done ext, st) (c, p) = (c, (p.1, p.1))
  write_outcome-Some connection t entity_id (raised f, st) (c, p) = (c, (p.1, p.1))

  -- If the provider rotates refresh tokens as documented, and a token that was encrypted decrypts to
  -- itself, then a connection whose stored refresh token the provider accepts still has one after
  -- the task, committed, whether the push, the refresh or the second push failed or not.
  pub sync_financial_record-IsUsable :
      (c : IntegrationConnection) (t : EntityType) (entity_id : ℕ) (tables : SyncTables) (world : W)
      → Rotates (client_of c.provider) accepts
      → ((text : String) → vault.decrypt_token (vault.encrypt_token text) ≡ some text)
      → IsUsable vault accepts i world tables.connections c
      → let ran = sync_financial_record texts vault client_of books i t entity_id tables world in
        (c' : IntegrationConnection) × IsUsable vault accepts i ran.1.world
          ran.1.durable.connections c'
  sync_financial_record-IsUsable c t entity_id tables world rotates opens usable =
      let begun : SyncState W = record { durable = tables; tables = tables; world = world } in
      let (c', kept) =
        subst (λ (r : Outcome (Unit {0}) × SyncState W). Some r.1)
          (sym (
            sync_financial_record-runs texts vault client_of books c i t entity_id tables world
              usable.stored))
          (write_outcome-Some c t entity_id
            (sync_record texts vault client_of books c t entity_id begun)
            ((sync_record-Some c t entity_id rotates opens).lead begun (usable, usable))) in
      (c', kept.0)
