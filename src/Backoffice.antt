-- ===== src/Backoffice.antt =====
-- The assistant that plans and executes back-office work: backend/app/backoffice.
pub mod Policy
pub mod Models
pub mod Store
pub mod Setup
pub mod Execution
pub mod Recovery
pub mod Planner
pub mod Approvals
pub mod Drafts
pub mod Planning
pub mod Service
pub mod Projection
pub mod Evidence
