-- ===== src/Models/Database.antt =====
-- The tables that the modelled components read and write.
use new_builders_stream.Prelude.{ℕ, List}
use new_builders_stream.Models.Tenancy.{
  Subscription, CompanyModuleOverride, IntegrationConnection, AuditLog, SyncJob,
}
use new_builders_stream.Models.Sales.{
  Lead, Project, ChangeOrder, Estimate, EstimateLineItem, MarkupProfile, CompanyFinancialSettings,
  Membership, Subcontractor, Phase, Task, Esignature, CostCatalogItem, BomLine,
}
use new_builders_stream.Models.Billing.{Invoice, InvoicePayment, Bill, BillPayment}

pub record Db : Type 0 where
  pub subscriptions : List Subscription
  pub module_overrides : List CompanyModuleOverride
  pub connections : List IntegrationConnection
  pub financial_settings : List CompanyFinancialSettings
  pub leads : List Lead
  pub projects : List Project
  pub phases : List Phase
  pub tasks : List Task
  pub project_clients : List Membership
  pub lead_clients : List Membership
  pub subcontractors : List Subcontractor
  pub change_orders : List ChangeOrder
  pub esignatures : List Esignature
  pub estimates : List Estimate
  pub line_items : List EstimateLineItem
  pub cost_catalog_items : List CostCatalogItem
  pub bom_lines : List BomLine
  pub markup_profiles : List MarkupProfile
  pub invoices : List Invoice
  pub invoice_payments : List InvoicePayment
  pub bills : List Bill
  pub bill_payments : List BillPayment
  pub audit_log : List AuditLog
  -- `session.info`: the callbacks to run after the commit
  pub pending : List SyncJob
  -- the next value of `uuid.uuid4()`, which no row has yet
  pub next_id : ℕ
