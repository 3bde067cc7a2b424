-- ===== src/Models/Sales.antt =====
-- backend/app/models/lead.py, project.py, change_order.py, estimate.py, estimate_line_item.py,
-- markup_profile.py, cost_catalog_item.py, project_client.py, lead_client.py, subcontractor.py,
-- task.py, esignature.py, bom_line.py.
use new_builders_stream.Prelude.{ℕ, Bool, String, Option}
use new_builders_stream.Prelude.Int.{ℤ}
use new_builders_stream.Money.{Decimal}

pub data LeadStatus : Type 0 where
  new contacted estimating qualified won lost : LeadStatus

pub record Lead : Type 0 where
  pub id : ℕ
  pub company_id : ℕ
  pub contact_name : String
  pub project_name : String
  pub email : String
  pub phone : Option String
  pub status : LeadStatus
  pub estimated_value : Option Decimal
  pub project_type : String
  pub notes : Option String
  pub updated_at : ℕ

pub data ProjectStatus : Type 0 where
  draft pre_construction active suspended completed archived : ProjectStatus

pub record Project : Type 0 where
  pub id : ℕ
  pub company_id : ℕ
  pub lead_id : Option ℕ
  pub name : String
  pub site_address : String
  pub status : ProjectStatus
  pub projected_start_date : Option ℕ

pub data ChangeOrderStatus : Type 0 where
  pending approved rejected : ChangeOrderStatus

pub record ChangeOrder : Type 0 where
  pub id : ℕ
  pub project_id : ℕ
  pub company_id : ℕ
  pub description : String
  pub cost_delta : ℤ
  pub schedule_impact_days : ℤ
  pub status : ChangeOrderStatus
  pub esignature_id : Option ℕ

pub data EstimateStatus : Type 0 where
  draft sent approved rejected : EstimateStatus

pub record Estimate : Type 0 where
  pub id : ℕ
  pub company_id : ℕ
  pub project_id : Option ℕ
  pub lead_id : Option ℕ
  pub markup_profile_id : ℕ
  pub status : EstimateStatus
  pub subtotal : Option ℤ
  pub total : Option ℤ
  pub is_snapshotted : Bool
  pub esignature_id : Option ℕ

pub record EstimateLineItem : Type 0 where
  pub id : ℕ
  pub estimate_id : ℕ
  pub company_id : ℕ
  pub position : ℕ
  pub cost_catalog_item_id : Option ℕ
  pub description : Option String
  pub unit : Option String
  pub quantity : Decimal
  pub unit_rate_snapshot : Decimal
  pub line_total : ℤ

pub record MarkupProfile : Type 0 where
  pub id : ℕ
  pub company_id : ℕ
  pub overhead_pct : Decimal
  pub profit_pct : Decimal

pub record CompanyFinancialSettings : Type 0 where
  pub company_id : ℕ
  pub deposit_percentage : Option Decimal
  pub tax_rate : Option Decimal

-- ProjectClient and LeadClient: a client user's membership of a project or of a lead.
pub record Membership : Type 0 where
  pub parent_id : ℕ
  pub company_id : ℕ
  pub user_id : ℕ

pub record Subcontractor : Type 0 where
  pub id : ℕ
  pub company_id : ℕ
  pub name : String

pub record Phase : Type 0 where
  pub id : ℕ
  pub project_id : ℕ
  pub company_id : ℕ
  pub name : String
  pub sequence : ℕ

-- VALID_STATUSES of a task.
pub data TaskStatus : Type 0 where
  open_ in_progress done : TaskStatus

-- A task with the project of its phase, which never changes.
pub record Task : Type 0 where
  pub id : ℕ
  pub phase_id : ℕ
  pub project_id : ℕ
  pub company_id : ℕ
  pub name : String
  pub assignee_id : Option ℕ
  pub due_date : Option ℕ
  pub status : TaskStatus

pub record Esignature : Type 0 where
  pub id : ℕ
  pub company_id : ℕ
  pub signer_name : String
  pub signer_email : String
  pub signed_by_user_id : ℕ
  pub ip_address : String
  pub document_type : String

pub record CostCatalogItem : Type 0 where
  pub id : ℕ
  pub company_id : ℕ
  pub category : String
  pub name : String
  pub unit : String
  pub unit_rate : Decimal
  pub parent_catalog_item_id : Option ℕ
  pub updated_at : ℕ

pub record BomLine : Type 0 where
  pub id : ℕ
  pub company_id : ℕ
  pub project_id : ℕ
  pub cost_catalog_item_id : Option ℕ
  pub vendor_id : Option ℕ
  pub description : String
  pub unit : String
  pub quantity : Decimal
  pub ordered : Bool
  pub ordered_at : Option ℕ
  pub source : String
