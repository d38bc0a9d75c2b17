-- ===== src/Core/Security.antt =====
-- backend/app/core/security.py: roles, access tokens and sessions.
mod Context
pub mod Tokens
pub mod Sessions
pub use Context.{SecurityContext}
use ai_document_ops_system.Prelude.{Bool, not, ◌&&◌, String, List, [], ◌∷◌, str_eq}
use ai_document_ops_system.Prelude.Text.{one_of}
use ai_document_ops_system.Core.Errors.{Result, ok, err, guard, unauthorized, ◌>>=◌, ◌>>◌}

abbrev pub intake_roles : List String
intake_roles = "intake" ∷ "operator" ∷ "uploader" ∷ []

unfoldable pub require_admin : SecurityContext → Result (Unit {0})
require_admin context = guard context.is_admin unauthorized

unfoldable pub require_any_role : SecurityContext → List String → Result (Unit {0})
unfolding one_of
require_any_role context allowed_roles = do
  guard (not (str_eq context.role "admin" && not context.is_admin)) unauthorized
  guard (one_of context.role allowed_roles) unauthorized

unfoldable pub is_intake_role : SecurityContext → Bool
unfolding one_of
is_intake_role context = not context.is_admin && one_of context.role intake_roles
