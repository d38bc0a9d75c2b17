-- ===== src/Backoffice/Execution.antt =====
-- backend/app/backoffice/execution.py: an approved step is reserved, its tool is called outside of
-- any transaction, and the outcome is recorded if the reservation still stands.
pub mod Outcome
pub mod Safety
pub mod Approved
pub mod Reserving
use ai_document_ops_system.Prelude.{
  ℕ, Bool, true, false, not, ◌&&◌, ◌||◌, Option, none, some, String, List, [], ◌∷◌, ◌==◌, opt_eq,
  is_none, str_eq, if◌then◌else◌,
}
use ai_document_ops_system.Prelude.Text.{concat_text}
use ai_document_ops_system.Prelude.TextDict.{lookup}
use ai_document_ops_system.Agent.Contracts.{
  AgentToolName, AgentToolRisk, AgentConfidence, AgentFailureType, AgentToolResponse, AgentRun,
  AgentToolCallTrace,
}
use ai_document_ops_system.Backoffice.Models.{
  WorkItem, WorkItemStatus, ActionStep, ActionStepStatus, TaskPlan, Approval, ApprovalStatus,
  step_status_eq, approval_status_eq,
}
use ai_document_ops_system.Backoffice.Policy.{
  ActionType, inspect_queue, explain_document, recommend_review, draft_accounting_note,
  draft_vendor_message, process_document, export_approved_invoice, escalate_to_human,
  block_unsafe_request, action_text,
}
use ai_document_ops_system.Backoffice.Setup.{
  Assistant, ToolExecutionRequest, attach_context, work_item_for_context, find_step, set_step,
  record_event,
}
use ai_document_ops_system.Backoffice.Store.{
  save_work_item, save_plan, get_plan, approvals_of, add_run,
}
use ai_document_ops_system.Core.Errors.{
  Error, Result, ok, err, guard, require_some, not_found, backoffice_workflow,
}
use ai_document_ops_system.Core.Security.{SecurityContext}
use ai_document_ops_system.Documents.Repositories.{get_document}
use ai_document_ops_system.Documents.Status.{DocumentStatus, status_eq}
use ai_document_ops_system.Documents.Workflow.{workspace_document}
use ai_document_ops_system.Runtime.{
  M, World, pure, raise, lift, try, now, new_uuid, transaction, ◌>>=◌, ◌>>◌,
}

-- `ACTION_TOOL_MAP.get`
unfoldable pub action_tool : ActionType → Option AgentToolName
action_tool process_document = some AgentToolName.process_document
action_tool export_approved_invoice = some AgentToolName.export_approved_csv
action_tool _ = none

abbrev tool_or_readiness : Option AgentToolName → AgentToolName
tool_or_readiness none = AgentToolName.get_readiness
tool_or_readiness (some tool) = tool

unfoldable pub blocked_response : ActionStep → String → AgentFailureType → AgentToolResponse
unfolding action_tool
blocked_response step summary failure_type = record {
  tool_name = tool_or_readiness (action_tool step.action_type);
  status = "blocked";
  risk = AgentToolRisk.blocked;
  summary = summary;
  confidence = AgentConfidence.low;
  evidence = [];
  requires_follow_up = true;
  error_code = none;
  failure_type = some failure_type;
  retryable = false;
  human_escalation_reason = some summary;
}

-- The answer for a step that was executed before.
unfoldable pub executed_response : Assistant → ActionStep → AgentToolResponse
unfolding action_tool concat_text
executed_response a step = record {
  tool_name = tool_or_readiness (action_tool step.action_type);
  status = "success";
  risk = AgentToolRisk.admin_action;
  summary = "Action was already executed; no duplicate side effect was created.";
  confidence = AgentConfidence.high;
  evidence =
      concat_text ("action_step_id=" ∷ a.texts.uuid_text step.id ∷ [])
      ∷ "idempotent_replay=true"
      ∷ [];
  requires_follow_up = false;
  error_code = none;
  failure_type = none;
  retryable = false;
  human_escalation_reason = none;
}

-- A tool to call, or an answer at once.
pub data Choice : Type 0 where
  tool : AgentToolName → Choice
  answer : AgentToolResponse → Choice

unfoldable pub first_approved : ℕ → List Approval → Option Approval
first_approved step_id [] = none
first_approved step_id (p ∷ ps) =
    if opt_eq p.action_step_id (some step_id) && approval_status_eq p.status ApprovalStatus.approved
    then some p
    else first_approved step_id ps

unfoldable pub approved_action_for_step : String → ℕ → ℕ → M (Option Approval)
unfolding approvals_of first_approved
approved_action_for_step workspace_id work_item_id step_id = do
  approvals ← approvals_of workspace_id work_item_id
  pure (first_approved step_id approvals)

abbrev pub is_export : ActionType → Bool
is_export export_approved_invoice = true
is_export _ = false

abbrev pub first_of : List ℕ → Option ℕ
first_of [] = none
first_of (id ∷ ids) = some id

abbrev invalid_state : AgentFailureType
invalid_state = AgentFailureType.invalid_workflow_state

unfoldable pub guard_document : WorkItem → ActionStep → Option ℕ → M (Option AgentToolResponse)
unfolding blocked_response workspace_document
guard_document item step none =
    pure (some (blocked_response step "Export requires a linked approved invoice." invalid_state))
guard_document item step (some document_id) = do
  document ← workspace_document document_id item.workspace_id
  pure (
      if status_eq document.status DocumentStatus.approved
      then none
      else some (
          blocked_response step "Export requires the linked invoice to be approved first."
            invalid_state))

-- `_export_execution_guard`
unfoldable pub export_execution_guard :
    Assistant → WorkItem → ActionStep → M (Option AgentToolResponse)
unfolding guard_document
export_execution_guard a item step =
    if not (is_export step.action_type) || not a.has_documents
    then pure none
    else guard_document item step (first_of item.linked_document_ids)

abbrev pub guarded : AgentToolName → Option AgentToolResponse → Choice
guarded name none = tool name
guarded name (some response) = answer response

abbrev text_or : Option String → String → String
text_or none default = default
text_or (some value) default = ai_document_ops_system.Prelude.Text.text_or value default

-- The part of `_execution_tool_or_error` that follows the test of the step's state.
unfoldable pub choose_tool : Assistant → WorkItem → ActionStep → Option AgentToolName → M Choice
unfolding approved_action_for_step blocked_response export_execution_guard
choose_tool a item step mapped = do
  approval ← approved_action_for_step item.workspace_id item.id step.id
  if step.requires_approval && is_none approval
      then pure (
          answer (
            blocked_response step "Approved human confirmation is required before execution."
              AgentFailureType.confirmation_required))
      else (elim mapped [
        | none ↦ pure (
            answer (
              blocked_response step "This action is not mapped to a controlled execution tool."
                AgentFailureType.missing_tool))
        | some name ↦
            if is_none a.tool_executor
            then pure (
                answer (
                  blocked_response step "Controlled tool executor is not configured."
                    AgentFailureType.missing_tool))
            else (do response ← export_execution_guard a item step; pure (guarded name response))
      ])

unfoldable pub tool_by_status : Assistant → WorkItem → ActionStep → ActionStepStatus → M Choice
unfolding executed_response blocked_response choose_tool action_tool
tool_by_status a item step ActionStepStatus.executed = pure (answer (executed_response a step))
tool_by_status a item step ActionStepStatus.executing = pure (
    answer (
      blocked_response step
        "The previous execution outcome must be reconciled before another attempt."
        AgentFailureType.tool_execution_failed))
tool_by_status a item step ActionStepStatus.blocked =
    pure (answer (blocked_response step (text_or step.why_not "Action is blocked.") invalid_state))
tool_by_status a item step ActionStepStatus.failed =
    pure (answer (blocked_response step (text_or step.why_not "Action is blocked.") invalid_state))
tool_by_status a item step _ = choose_tool a item step (action_tool step.action_type)

-- `_execution_tool_or_error`
unfoldable pub execution_tool_or_error : Assistant → WorkItem → ActionStep → M Choice
unfolding tool_by_status
execution_tool_or_error a item step = tool_by_status a item step step.status
