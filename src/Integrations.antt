-- ===== src/Integrations.antt =====
-- Delivery of approved invoices to an accounting system: backend/app/integrations.
pub mod Models
pub mod Repository
pub mod Adapter
pub mod Payload
pub mod Executor
pub mod Service
pub mod Settlement
pub mod Projection
pub mod Replay
pub mod Recording
pub mod Claims
pub mod OpenOutcome
pub mod Redelivery
