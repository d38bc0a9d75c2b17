-- ===== src/Core.antt =====
-- backend/app/core: the caller of a request and what a call may raise.
pub mod Errors
pub mod Security
