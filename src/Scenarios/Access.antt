-- ===== src/Scenarios/Access.antt =====
-- Tokens, sessions and the policy of the assistant.
use ai_document_ops_system.Prelude.{◌≡◌, ◌↔◌, refl, str_eq, none, some, [], true, false}
use ai_document_ops_system.Prelude.Text.{is_empty_text}
use ai_document_ops_system.Backoffice.Policy.{PolicyRequest, decide_action, export_approved_invoice}
use ai_document_ops_system.Backoffice.Policy.Limits.{IsPermitted, allowed-IsPermitted}
use ai_document_ops_system.Core.Security.Sessions.{SessionStore, create, get}
use ai_document_ops_system.Core.Security.Sessions.Expiry.{get-create}
use ai_document_ops_system.Core.Security.Tokens.{TokenSettings, authenticate_access_token}
use ai_document_ops_system.Core.Security.Tokens.Principal.{token_of, authenticated-principal}
use ai_document_ops_system.Scenarios.Data.{admin_context, reviewer_context}

abbrev settings : TokenSettings
settings = record {
  admin_token = "";
  uploader_token = "u";
  reviewer_token = "r";
  metrics_token = "m";
  workspace_id = "ws";
}

authenticated-principal_example :
    (token_of "reviewer" settings ≡ some "r")
    × (is_empty_text "r" ≡ false)
    × (false ≡ str_eq "reviewer" "admin")
unfolding authenticate_access_token
authenticated-principal_example = authenticated-principal "r" settings reviewer_context refl

abbrev sessions : SessionStore
sessions = record { ttl_seconds = 60; sessions = [] }

get-create_example :
    (get (some "s") 30 (create "s" 10 reviewer_context sessions)).0 ≡ some reviewer_context
unfolding is_empty_text
get-create_example = get-create "s" 10 30 reviewer_context sessions refl

abbrev request : PolicyRequest
request = record {
  workspace_id = "ws";
  work_item_id = 1;
  action = export_approved_invoice;
  action_step_id = none;
  target_workspace_id = some "ws";
  evidence_sufficient = true;
  confirmed = true;
}

allowed-IsPermitted_example :
    ((decide_action request admin_context).allowed ≡ true) ↔ IsPermitted request admin_context
allowed-IsPermitted_example = allowed-IsPermitted request admin_context
