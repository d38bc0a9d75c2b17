-- ===== src/Agent/Contracts.antt =====
-- backend/app/agent/contracts.py and models.py: the tools of the assistant, their responses and the
-- record of a run. The payload of a response, the token usage, the latency and the times of a run
-- are passed on to the interface and never read; they are left out.
use ai_document_ops_system.Prelude.{ℕ, Bool, Option, String, List}

pub data AgentToolRisk : Type 0 where
  read_only operator_action review_action admin_action blocked : AgentToolRisk

pub data AgentConfidence : Type 0 where
  high medium low : AgentConfidence

pub data AgentFailureType : Type 0 where
  wrong_tool missing_tool hallucinated_state permission_denied : AgentFailureType
  workspace_boundary_violation confirmation_required timeout : AgentFailureType
  invalid_workflow_state tool_execution_failed insufficient_evidence : AgentFailureType

pub data AgentToolName : Type 0 where
  get_readiness get_metrics_summary list_documents get_document_detail : AgentToolName
  list_review_queue process_document save_review_notes approve_review : AgentToolName
  reject_review export_approved_csv send_accounting_integration : AgentToolName

pub record AgentToolResponse : Type 0 where
  pub tool_name : AgentToolName
  pub status : String
  pub risk : AgentToolRisk
  pub summary : String
  pub confidence : AgentConfidence
  pub evidence : List String
  pub requires_follow_up : Bool
  pub error_code : Option String
  pub failure_type : Option AgentFailureType
  pub retryable : Bool
  pub human_escalation_reason : Option String

pub record AgentToolCallTrace : Type 0 where
  pub tool_name : AgentToolName
  pub risk : AgentToolRisk
  pub status : String
  pub summary : String
  pub confidence : AgentConfidence
  pub evidence : List String
  pub failure_type : Option AgentFailureType
  pub human_escalation_reason : Option String
  pub id : ℕ

pub record AgentRun : Type 0 where
  pub workspace_id : String
  pub actor : String
  pub request : String
  pub intent : String
  pub prompt_version : String
  pub confidence : AgentConfidence
  pub expected_tool : Option AgentToolName
  pub selected_tool : Option AgentToolName
  pub selection_reason : Option String
  pub human_escalation_reason : Option String
  pub failure_type : Option AgentFailureType
  pub final_summary : Option String
  pub work_item_id : Option ℕ
  pub plan_id : Option ℕ
  pub id : ℕ
  pub tool_calls : List AgentToolCallTrace
  pub blocked_actions : List String
