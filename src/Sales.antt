-- ===== src/Sales.antt =====
-- From a lead to a completed project: backend/app/routers/leads.py, projects.py, change_orders.py,
-- estimates.py and the handlers of the events that they publish.
pub mod Leads
pub mod Projects
pub mod Tasks
pub mod ChangeOrders
pub mod Estimates
pub mod Catalog
