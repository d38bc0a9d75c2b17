-- ===== src/Invoice.antt =====
-- The data that is extracted from an invoice and the rules that it has to meet:
-- backend/app/extraction and backend/app/validation.
pub mod Decimal
pub mod Schemas
pub mod Validation
pub mod Near
pub mod Consistency
