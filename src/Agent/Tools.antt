-- ===== src/Agent/Tools.antt =====
-- The controlled tools of backend/app/agent/contracts.py: who may call them, and which of them change
-- data. Purposes, schemas and the kinds of failures are descriptions that nothing modelled reads.
use ai_document_ops_system.Prelude.{
  Bool, true, false, not, ◌&&◌, String, List, [], ◌∷◌, str_eq, select, if◌then◌else◌,
}
use ai_document_ops_system.Prelude.Text.{one_of}
use ai_document_ops_system.Agent.Contracts.{
  AgentToolName, get_readiness, get_metrics_summary, list_documents, get_document_detail,
  list_review_queue, process_document, save_review_notes, approve_review, reject_review,
  export_approved_csv, send_accounting_integration, AgentToolRisk, read_only, operator_action,
  review_action, admin_action,
}
use ai_document_ops_system.Core.Security.{SecurityContext}

pub record AgentToolDefinition : Type 0 where
  pub name : AgentToolName
  pub risk : AgentToolRisk
  pub allowed_roles : List String
  pub requires_confirmation : Bool

abbrev read_roles : List String
read_roles = "admin" ∷ "operator" ∷ "reviewer" ∷ []

abbrev review_roles : List String
review_roles = "admin" ∷ "reviewer" ∷ []

abbrev admin_roles : List String
admin_roles = "admin" ∷ []

abbrev tool : AgentToolName → AgentToolRisk → List String → Bool → AgentToolDefinition
tool name risk roles confirmed = record {
  name = name;
  risk = risk;
  allowed_roles = roles;
  requires_confirmation = confirmed;
}

unfoldable pub get_tool_definition : AgentToolName → AgentToolDefinition
get_tool_definition get_readiness = tool get_readiness read_only read_roles false
get_tool_definition get_metrics_summary = tool get_metrics_summary read_only read_roles false
get_tool_definition list_documents = tool list_documents read_only read_roles false
get_tool_definition get_document_detail = tool get_document_detail read_only read_roles false
get_tool_definition list_review_queue = tool list_review_queue read_only review_roles false
get_tool_definition process_document =
    tool process_document operator_action ("admin" ∷ "operator" ∷ []) true
get_tool_definition save_review_notes = tool save_review_notes review_action review_roles true
get_tool_definition approve_review = tool approve_review review_action review_roles true
get_tool_definition reject_review = tool reject_review review_action review_roles true
get_tool_definition export_approved_csv = tool export_approved_csv admin_action admin_roles true
get_tool_definition send_accounting_integration =
    tool send_accounting_integration admin_action admin_roles true

abbrev pub tool_names : List AgentToolName
tool_names =
    get_readiness ∷ get_metrics_summary ∷ list_documents ∷ get_document_detail ∷ list_review_queue
    ∷ process_document ∷ save_review_notes ∷ approve_review ∷ reject_review ∷ export_approved_csv
    ∷ send_accounting_integration ∷ []

unfoldable pub requires_confirmation : AgentToolName → Bool
unfolding get_tool_definition
requires_confirmation name = (get_tool_definition name).requires_confirmation

unfoldable pub can_be_called_by : AgentToolDefinition → SecurityContext → Bool
unfolding one_of
can_be_called_by definition context =
    if str_eq context.role "admin" && not context.is_admin
    then false
    else one_of context.role definition.allowed_roles

unfoldable pub allowed_tools_for_context : SecurityContext → List AgentToolName
unfolding can_be_called_by get_tool_definition
allowed_tools_for_context context =
    select (λ name. can_be_called_by (get_tool_definition name) context) tool_names
