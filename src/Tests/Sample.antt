-- ===== src/Tests/Sample.antt =====
-- A parent company 1 with a branch 2, its accountant, and a database with a project of the branch.
use new_builders_stream.Prelude.{Bool, true, leb, none, some, [], ◌∷◌}
use new_builders_stream.Prelude.Int.{pos}
use new_builders_stream.Money.{Decimal}
use new_builders_stream.Models.{
  Db, Session, CurrentUser, accountant, enterprise, active, Project, ProjectStatus, Invoice,
  InvoiceStatus, SyncJob,
}

abbrev pub session : Session
session = record {
  get_root_company_id = λ c. 1;
  visible = λ c. leb c 2;
  catalog_visible = λ c. leb c 2;
  chain_length = λ c. c;
  now = 500;
  year = 2026;
}

abbrev pub bookkeeper : CurrentUser
bookkeeper = record {
  user_id = 7;
  email = "books@example.com";
  company_id = 1;
  role = accountant;
  session = session;
}

abbrev pub branch_project : Project
branch_project = record {
  id = 5;
  company_id = 2;
  lead_id = none;
  name = "Garage";
  site_address = "";
  status = ProjectStatus.active;
  projected_start_date = none;
}

-- No invoices or bills yet; the branch has one accounting connection.
abbrev pub start : Db
start = record {
  subscriptions = record { company_id = 1; tier = enterprise; status = active } ∷ [];
  module_overrides = [];
  connections = record { id = 40; company_id = 2 } ∷ [];
  financial_settings = [];
  leads = [];
  projects = branch_project ∷ [];
  phases = [];
  tasks = [];
  project_clients = [];
  lead_clients = [];
  subcontractors = [];
  change_orders = [];
  esignatures = [];
  estimates = [];
  line_items = [];
  cost_catalog_items = [];
  bom_lines = [];
  markup_profiles = [];
  invoices = [];
  invoice_payments = [];
  bills = [];
  bill_payments = [];
  audit_log = [];
  pending = [];
  next_id = 100;
}

abbrev pub sent_invoice : Invoice
sent_invoice = record {
  id = 10;
  project_id = 5;
  company_id = 2;
  estimate_id = none;
  invoice_number = record { year = 2026; sequence = 1 };
  amount = pos 10000;
  status = InvoiceStatus.sent;
  due_date = some 490;
}

-- An invoice of 100.00 that was sent, and nothing paid.
abbrev pub billed : Db
billed = record start { invoices = sent_invoice ∷ [] }

-- A queue that is up.
abbrev pub deliver : SyncJob → Bool
deliver job = true

-- 99.995, with more places than a cent.
abbrev pub odd_amount : Decimal
odd_amount = record { coefficient = pos 99995; places = 3 }
