-- ===== src/Core/Security/Context.antt =====
-- `SecurityContext` of backend/app/core/security.py.
use ai_document_ops_system.Prelude.{Bool, Option, String}

pub record SecurityContext : Type 0 where
  pub actor : String
  pub is_admin : Bool
  pub workspace_id : String
  pub user_id : String
  pub role : String
  pub trace_id : Option String
