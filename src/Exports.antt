-- ===== src/Exports.antt =====
-- backend/app/exports
pub mod Models
pub mod Repository
pub mod Eligibility
pub mod Csv
pub mod Execution
pub mod Batches
