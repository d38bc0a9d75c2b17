-- ===== src/Agent/Routing.antt =====
-- `CopilotIntentRouter` of backend/app/agent/routing.py: which tool answers a request. `lower` is
-- `str.lower`; the reason of a route, a fixed sentence, is left out.
pub mod ReadOnly
use ai_document_ops_system.Prelude.{
  ℕ, Bool, false, Option, none, some, is_some, String, List, [], ◌∷◌, ◌≡◌, refl, any, if◌then◌else◌,
  Bool-cases, inl, inr,
}
use ai_document_ops_system.Prelude.Text.{contains}
use ai_document_ops_system.Agent.Contracts.{
  AgentToolName, get_readiness, get_metrics_summary, list_documents, get_document_detail,
  list_review_queue, read_only,
}
use ai_document_ops_system.Agent.Tools.{get_tool_definition}

pub record CopilotRequest : Type 0 where
  pub message : String
  pub document_id : Option ℕ
  pub expected_tool : Option AgentToolName
  pub execute_tool : Option AgentToolName
  pub confirmed : Bool

pub record RoutingRule : Type 0 where
  pub tool_name : AgentToolName
  pub keywords : List String

pub record CopilotRoute : Type 0 where
  pub tool_name : AgentToolName
  pub intent : String

abbrev rule : AgentToolName → List String → RoutingRule
rule name keywords = record { tool_name = name; keywords = keywords }

abbrev routing_rules : List RoutingRule
routing_rules =
    rule get_readiness ("ready" ∷ "readiness" ∷ "health" ∷ "database" ∷ "storage" ∷ [])
    ∷ rule list_review_queue ("review" ∷ "queue" ∷ "human" ∷ [])
    ∷ rule get_metrics_summary ("metric" ∷ "summary" ∷ "workflow" ∷ "status" ∷ "cost" ∷ [])
    ∷ rule list_documents ("document" ∷ "invoice" ∷ "list" ∷ [])
    ∷ []

abbrev mutation_keywords : List String
mutation_keywords =
    "approve" ∷ "reject" ∷ "process" ∷ "export" ∷ "send" ∷ "update" ∷ "delete" ∷ "change" ∷ []

unfoldable pub tool_intent : AgentToolName → String
tool_intent get_readiness = "inspect_readiness"
tool_intent get_metrics_summary = "summarize_workflow"
tool_intent list_documents = "list_documents"
tool_intent get_document_detail = "explain_document"
tool_intent list_review_queue = "summarize_review_queue"
tool_intent other = "unsupported"

abbrev mentions : String → List String → Bool
mentions text keywords = any (λ keyword. contains keyword text) keywords

unfoldable pub first_rule : String → List RoutingRule → AgentToolName
unfolding contains
first_rule text [] = get_metrics_summary
first_rule text (r ∷ rules) =
    let rest = first_rule text rules in if mentions text r.keywords then r.tool_name else rest

unfoldable pub is_mutation_request : (String → String) → String → Bool
unfolding contains
is_mutation_request lower message = mentions (lower message) mutation_keywords

unfoldable pub tool_for : String → Option ℕ → Option AgentToolName → AgentToolName
unfolding first_rule
tool_for text document_id (some name) = name
tool_for text (some id) none = get_document_detail
tool_for text none none = first_rule text routing_rules

unfoldable pub select_tool : (String → String) → CopilotRequest → AgentToolName
unfolding tool_for
select_tool lower request =
    tool_for (lower request.message) request.document_id request.execute_tool

unfoldable pub route : (String → String) → CopilotRequest → CopilotRoute
unfolding select_tool tool_intent
route lower request =
    let name = select_tool lower request in
    record {
      tool_name = name;
      intent = if is_some request.execute_tool then "execute_controlled_tool" else tool_intent name;
    }
