-- ===== src/Scenarios.antt =====
-- The theorems at concrete inputs.
mod Data
mod Intake
mod Takeovers
mod Reviews
mod Batches
mod Access
mod Deliveries
mod Assistance
