-- ===== src/Tests.antt =====
-- Runs of the model at concrete data: the witnesses of the theorems, by part of the program.
mod SyncRuns
mod LineRuns
mod ComplianceRuns
mod CatalogRuns
mod Sample
mod CoreRuns
mod BillingRuns
mod SalesRuns
mod EstimateRuns
mod AuthRuns
mod PageRuns
mod SignInRuns
mod InvitationRuns
mod PlatformRuns
mod TaskRuns
