-- ===== src/Models/Tenancy.antt =====
-- backend/app/models/user.py, subscription.py, company_module_override.py, audit.py, and the
-- caller that backend/app/core/deps.py hands to a route.
use new_builders_stream.Prelude.{ℕ, Bool, String, List, Option}
use new_builders_stream.Money.{Decimal}

-- VALID_ROLES.
pub data Role : Type 0 where
  admin project_manager field_crew accountant client : Role

-- VALID_TIERS.
pub data Tier : Type 0 where
  starter pro enterprise : Tier

-- VALID_MODULES.
pub data PlanModule : Type 0 where
  estimation compliance accounting integrations child_branches : PlanModule

-- The statuses that Stripe reports; only the first two are in good standing.
pub data SubscriptionStatus : Type 0 where
  trialing active past_due canceled unpaid incomplete : SubscriptionStatus

pub record Subscription : Type 0 where
  pub company_id : ℕ
  pub tier : Tier
  pub status : SubscriptionStatus

pub record CompanyModuleOverride : Type 0 where
  pub id : ℕ
  pub company_id : ℕ
  pub plan_module : PlanModule
  pub enabled : Bool
  pub note : Option String
  pub set_by : ℕ

pub record IntegrationConnection : Type 0 where
  pub id : ℕ
  pub company_id : ℕ

-- What the database gives to a request's session and what does not change during it: the SQL
-- functions over the tree of companies, the rows that the row-level security of the caller's
-- tenant shows (by their company; the catalog has a policy of its own), the lengths of the chains of
-- ancestors, and the clock.
pub record Session : Type 0 where
  pub get_root_company_id : ℕ → ℕ
  pub visible : ℕ → Bool
  pub catalog_visible : ℕ → Bool
  pub chain_length : ℕ → ℕ
  pub now : ℕ
  pub year : ℕ

pub record CurrentUser : Type 0 where
  pub user_id : ℕ
  pub email : String
  pub company_id : ℕ
  pub role : Role
  pub session : Session

-- A value of the JSON object `log_metadata`.
pub data MetaValue : Type 0 where
  null : MetaValue
  uuid day : ℕ → MetaValue
  decimal : Decimal → MetaValue
  text : String → MetaValue

pub record AuditLog : Type 0 where
  pub company_id : ℕ
  pub actor_id : Option ℕ
  pub action : String
  pub entity_type : String
  pub entity_id : ℕ
  pub log_metadata : List (String × MetaValue)

-- A message for a worker that waits for the commit: `sync_financial_record.send(...)`.
pub record SyncJob : Type 0 where
  pub connection_id : ℕ
  pub entity_type : String
  pub entity_id : ℕ
