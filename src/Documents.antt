-- ===== src/Documents.antt =====
-- backend/app/documents
pub mod Status
pub mod Models
pub mod JobModel
pub mod Contracts
pub mod Jobs
pub mod JobStore
pub mod Repositories
pub mod Workflow
pub mod RetryPolicy
pub mod Leases
pub mod DuplicateCheck
pub mod UntrustedContent
pub mod Pipeline
pub mod Results
pub mod Queue
pub mod Lifecycle
pub mod Processing
pub mod Upload
pub mod Worker
pub mod Reading
