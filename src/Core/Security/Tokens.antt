-- ===== src/Core/Security/Tokens.antt =====
-- The access tokens of backend/app/core/security.py. The settings are the fields that this code
-- reads; an empty text is a token that is not configured.
pub mod Principal
use ai_document_ops_system.Prelude.{
  Bool, true, false, not, ◌&&◌, ◌||◌, Option, none, some, String, List, [], ◌∷◌, str_eq, ltb, all,
  if◌then◌else◌,
}
use ai_document_ops_system.Prelude.Text.{codes, is_empty_text, strip}
use ai_document_ops_system.Core.Errors.{Result, ok, err, guard, unauthorized, ◌>>=◌, ◌>>◌}
use ai_document_ops_system.Core.Errors
use ai_document_ops_system.Core.Security.Context.{SecurityContext}

pub record TokenSettings : Type 0 where
  pub admin_token : String
  pub uploader_token : String
  pub reviewer_token : String
  pub metrics_token : String
  pub workspace_id : String

unfoldable pub or_default : String → String → String
unfolding is_empty_text
or_default text fallback = if is_empty_text text then fallback else text

unfoldable pub principals : TokenSettings → List (String × SecurityContext)
unfolding or_default strip
principals settings =
    let workspace = or_default (strip settings.workspace_id) "default" in
    (
      settings.admin_token,
      record {
        actor = "Administrator";
        is_admin = true;
        workspace_id = workspace;
        user_id = "admin";
        role = "admin";
        trace_id = none;
      },
    )
    ∷ (
      settings.uploader_token,
      record {
        actor = "Invoice Uploader";
        is_admin = false;
        workspace_id = workspace;
        user_id = "uploader";
        role = "uploader";
        trace_id = none;
      },
    )
    ∷ (
      settings.reviewer_token,
      record {
        actor = "Invoice Reviewer";
        is_admin = false;
        workspace_id = workspace;
        user_id = "reviewer";
        role = "reviewer";
        trace_id = none;
      },
    )
    ∷ []

-- `str.isascii`
unfoldable pub is_ascii : String → Bool
is_ascii s = all (λ c. ltb c 128) (codes s)

-- `compare_digest`: equality of texts, which are to be ASCII.
unfoldable pub compare_digest : String → String → Result Bool
unfolding is_ascii
compare_digest a b =
    if is_ascii a && is_ascii b then ok (str_eq a b) else err (Errors.other "TypeError")

-- The loop over the principals.
unfoldable pub first_match : String → List (String × SecurityContext) → Result SecurityContext
unfolding is_empty_text compare_digest
first_match provided_token [] = err unauthorized
first_match provided_token ((expected_token, context) ∷ rest) =
    let others = first_match provided_token rest in
    if is_empty_text expected_token then others else (do
      same ← compare_digest provided_token expected_token
      if same then ok context else others)

unfoldable pub authenticate_access_token : Option String → TokenSettings → Result SecurityContext
unfolding first_match principals is_empty_text
authenticate_access_token none settings = err unauthorized
authenticate_access_token (some provided_token) settings =
    if is_empty_text provided_token
    then err unauthorized
    else first_match provided_token (principals settings)

unfoldable pub authenticate_metrics_token : Option String → TokenSettings → Result (Unit {0})
unfolding is_empty_text compare_digest
authenticate_metrics_token none settings = err unauthorized
authenticate_metrics_token (some provided_token) settings = do
  guard (not (is_empty_text provided_token) && not (is_empty_text settings.metrics_token))
      unauthorized
  same ← compare_digest provided_token settings.metrics_token
  guard same unauthorized
