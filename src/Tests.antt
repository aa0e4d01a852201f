-- ===== src/Tests.antt =====
-- Concrete runs of the components, and the theorems applied to them.
mod Control
mod Permits
mod Runs
mod Dispatches
mod Documents
mod Approvals
mod Inboxes
mod Agents
mod Graphs
mod Ledgers
