-- ===== src/Review.antt =====
-- backend/app/review
pub mod Models
pub mod Corrections
pub mod Service
pub mod Approval
pub mod Corrected
