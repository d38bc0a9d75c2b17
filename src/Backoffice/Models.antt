-- ===== src/Backoffice/Models.antt =====
-- backend/app/backoffice/models.py: work items, plans, drafts, approvals and events. The kinds of
-- actions and their risks stand with the policy.
use ai_document_ops_system.Prelude.{ℕ, Bool, ◌==◌, Option, String, List}
use ai_document_ops_system.Backoffice.Policy.{ActionType, ActionRiskLevel}

pub data WorkType : Type 0 where
  invoice_review invoice_export accounting_note vendor_follow_up : WorkType
  exception_handling insufficient_evidence : WorkType

pub data WorkItemSourceType : Type 0 where
  document manual integration : WorkItemSourceType

pub data WorkItemPriority : Type 0 where
  low normal high urgent : WorkItemPriority

pub data WorkItemStatus : Type 0 where
  new classified planning awaiting_human ready_to_execute executing resolved : WorkItemStatus
  blocked failed : WorkItemStatus

pub data ActionStepStatus : Type 0 where
  planned waiting_for_approval approved executing executed blocked failed : ActionStepStatus

pub data DraftType : Type 0 where
  accounting_note vendor_message export_preview : DraftType

pub data DraftStatus : Type 0 where
  drafted approved rejected executed : DraftStatus

pub data ApprovalStatus : Type 0 where
  pending approved rejected : ApprovalStatus

pub record WorkItem : Type 0 where
  pub workspace_id : String
  pub title : String
  pub source_type : WorkItemSourceType
  pub work_type : Option WorkType
  pub priority : WorkItemPriority
  pub status : WorkItemStatus
  pub linked_document_ids : List ℕ
  pub business_context : List (String × String)
  pub current_plan_id : Option ℕ
  pub idempotency_key : Option String
  pub idempotency_fingerprint : Option String
  pub id : ℕ
  pub created_at : ℕ
  pub updated_at : ℕ

pub record ActionStep : Type 0 where
  pub action_type : ActionType
  pub risk_level : ActionRiskLevel
  pub tool_name : Option String
  pub requires_approval : Bool
  pub status : ActionStepStatus
  pub why_this : Option String
  pub why_not : Option String
  pub id : ℕ
  pub created_at : ℕ
  pub updated_at : ℕ

pub record TaskPlan : Type 0 where
  pub workspace_id : String
  pub work_item_id : ℕ
  pub planner_version : String
  pub steps : List ActionStep
  pub overall_confidence : String
  pub escalation_reason : Option String
  pub idempotency_key : Option String
  pub idempotency_fingerprint : Option String
  pub agent_run_id : Option ℕ
  pub id : ℕ
  pub created_at : ℕ
  pub updated_at : ℕ

pub record ActionDraft : Type 0 where
  pub workspace_id : String
  pub work_item_id : ℕ
  pub draft_type : DraftType
  pub preview_content : String
  pub action_step_id : Option ℕ
  pub status : DraftStatus
  pub id : ℕ
  pub created_at : ℕ
  pub updated_at : ℕ

pub record Approval : Type 0 where
  pub workspace_id : String
  pub work_item_id : ℕ
  pub requested_by : String
  pub action_step_id : Option ℕ
  pub draft_id : Option ℕ
  pub status : ApprovalStatus
  pub reviewed_by : Option String
  pub reviewer_notes : Option String
  pub reviewed_at : Option ℕ
  pub id : ℕ
  pub created_at : ℕ
  pub updated_at : ℕ

pub record WorkflowEvent : Type 0 where
  pub workspace_id : String
  pub event_type : String
  pub actor : String
  pub summary : String
  pub document_id : Option ℕ
  pub work_item_id : Option ℕ
  pub agent_run_id : Option ℕ
  pub id : ℕ
  pub created_at : ℕ

abbrev step_index : ActionStepStatus → ℕ
step_index ActionStepStatus.planned = 0
step_index ActionStepStatus.waiting_for_approval = 1
step_index ActionStepStatus.approved = 2
step_index ActionStepStatus.executing = 3
step_index ActionStepStatus.executed = 4
step_index ActionStepStatus.blocked = 5
step_index ActionStepStatus.failed = 6

abbrev pub step_status_eq : ActionStepStatus → ActionStepStatus → Bool
step_status_eq a b = step_index a == step_index b

abbrev approval_index : ApprovalStatus → ℕ
approval_index ApprovalStatus.pending = 0
approval_index ApprovalStatus.approved = 1
approval_index ApprovalStatus.rejected = 2

abbrev pub approval_status_eq : ApprovalStatus → ApprovalStatus → Bool
approval_status_eq a b = approval_index a == approval_index b

unfoldable pub item_status_text : WorkItemStatus → String
item_status_text new = "new"
item_status_text classified = "classified"
item_status_text planning = "planning"
item_status_text awaiting_human = "awaiting_human"
item_status_text ready_to_execute = "ready_to_execute"
item_status_text executing = "executing"
item_status_text resolved = "resolved"
item_status_text blocked = "blocked"
item_status_text failed = "failed"
