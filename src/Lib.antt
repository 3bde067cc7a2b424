-- ===== src/Lib.antt =====
-- Builders Stream: the back end of a multi-tenant application for construction companies
-- (backend/app, FastAPI over PostgreSQL), as definitions with the theorems about them.
--
-- A request is a route handler over one database session. It checks the caller's role, the standing
-- and the modules of the company's plan, looks rows up under row-level security, writes, publishes
-- in-process events whose handlers write in the same session, and is committed or rolled back as a
-- whole; messages for the workers are queued until the commit.
--
-- Prelude: shared names; Prelude/Int: integers over the native numbers; Prelude/Table: a table as a
--   list of rows, with the queries and statements that the routes use.
-- Money: the places of core/money.py, and the quantize(CENTS, ROUND_HALF_UP) of its users; a Decimal is coefficient / 10 ^ places, a stored amount is in cents.
-- Models: the rows (backend/app/models), the caller (CurrentUser of core/deps.py) and the database.
-- Core/Exec: an action is a function of the database to a result or an HTTP error, and the database
--   it leaves. Core/Exec/Reads and Core/Exec/Spares: actions that write nothing, or spare some tables.
-- Core/Access: require_role, block_if_read_only (core/deps.py), core/tier_gating.py.
-- Core/Lookup: services/project_lookup.py, subcontractor_lookup.py, client_scope.py.
-- Core/Audit: services/audit.py. Core/Events: core/events.py, core/event_handlers.py.
-- Core/Sync: services/financial_record_sync_handler.py and enqueue_after_commit.
-- Core/Transaction: the commit and rollback of get_current_user, run_after_commit.
-- Billing/Invoices: routers/invoices.py, services/invoicing.py. Billing/Bills: routers/bills.py.
-- Billing/Ledger: what both have in common, for the proofs. Billing/Overdue: the daily task
--   tasks/flag_overdue_financial_records.py. Billing/Steps: all of these as steps of the database.
-- Sales/Leads: routers/leads.py, services/lead_transitions.py, lead_won_handler.py, concurrency.py.
-- Sales/Projects: update_project_status of routers/projects.py, services/project_transitions.py,
--   project_completed_handler.py. Sales/ChangeOrders: routers/change_orders.py and
--   services/esignature.py. Sales/Estimates: routers/estimates.py, services/estimate_calculation.py;
--   Deposit: services/estimate_approved_handler.py, financial_settings.py; Materials:
--   services/bom_generation_handler.py; Signature: the approval and rejection by the client.
--   LineItems: replace_estimate_line_items. Sales/Catalog: services/catalog_resolution.py.
-- Sales/Tasks: phases and tasks, routers/tasks.py without its two lists.
-- Core/Cursor, Core/Pagination: core/pagination.py, over the rows that a query selects.
-- Auth/RefreshTokens: services/refresh_tokens.py. Auth/Accounts: the users, memberships and links that
--   routers/auth.py reads. Auth/Mfa: services/mfa.py. Auth/Sessions: sign-in, refresh, switch of company
--   and logout. Auth/Passwords: services/password_reset.py, the change of a password and the second
--   factor. Auth/Invitations: routers/invitations.py. Their tables are records of their own.
-- Compliance/Expiry: the daily task tasks/compliance_expiry.py.
-- Integrations/Payload, Provider, AccountingSync: tasks/accounting_sync.py, against any client of
--   services/accounting_client.py; the session and what is committed are apart.
-- Platform/Overrides: entitlements and module overrides of routers/platform_tenants.py.
-- Tests: concrete runs.
--
-- A route keeps its handler's name and order of checks. Identifiers are numbers, uuid4() is the next
-- unused one; dates are day numbers; a timestamp that the database fills in is left out. A row lock
-- (SELECT ... FOR UPDATE) makes the rest of a billing route one step, which works on the columns
-- that the session has read before the lock, since the query does not load them again; the row may
-- have another status by then. Arithmetic on Decimal is exact: the context's 28 digits and the
-- overflow of a NUMERIC column are left out. Parameters of the model, as the code relies on them and
-- does not define them: the SQL function get_root_company_id, the companies that row-level security
-- shows to the caller's tenant, the lengths of the companies' chains of ancestors, the clock (fields
-- of Session), the comparison of two e-mail addresses, whether the message queue takes a job;
-- argon2, pyotp, Fernet, SHA-256, the SQL function is_company_live and the settings (Environment),
-- what Redis counts for a rate limit (Moment), base64 and the texts of times and UUIDs (Codec),
-- str.strip, and what an accounting provider answers and keeps. Loops are structurally recursive
-- over the rows, with two bounds: the walk to the root of a catalog item has one step more than
-- there are rows, which takes it to its end, and the walk through the pages of a list has as many
-- pages as its theorem asks for.
--
-- Not modelled: registration and the decoding of access tokens, the sending of mail, PDF, uploads, the
-- HTTP clients of payment and accounting services, the list routes and dashboards, a commit that
-- itself fails, the front end, and the parts of the back end that Models and the list above do not
-- name.
pub mod Prelude
pub mod Money
pub mod Models
pub mod Compliance
pub mod Integrations
pub mod Platform
pub mod Core
pub mod Billing
pub mod Sales
pub mod Auth
pub mod Tests
