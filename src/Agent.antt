-- ===== src/Agent.antt =====
-- The assistant: backend/app/agent.
pub mod Contracts
pub mod Tools
pub mod Routing
