-- ===== src/Backoffice/Projection.antt =====
-- backend/app/backoffice/workflow_projection.py: the stage of an invoice, who owns it and what it
-- waits for, from its document, its work item and the approvals.
pub mod Stages
use ai_document_ops_system.Prelude.{
  Bool, false, Option, none, some, String, [], ◌∷◌, ◌==◌, any, if◌then◌else◌,
}
use ai_document_ops_system.Prelude.Text.{concat_text, text_or}
use ai_document_ops_system.Prelude.TextDict.{lookup}
use ai_document_ops_system.Backoffice.Execution.Outcome.{context_is}
use ai_document_ops_system.Backoffice.Models.{WorkItem, WorkItemStatus, Approval, item_status_text}
use ai_document_ops_system.Backoffice.Store.{list_pending}
use ai_document_ops_system.Documents.Models.{DocumentRecord}
use ai_document_ops_system.Documents.Status.{DocumentStatus, status_eq}
use ai_document_ops_system.Runtime.{M, pure, ◌>>=◌}

pub record WorkflowProjection : Type 0 where
  pub current_stage : String
  pub current_owner : String
  pub waiting_for : Option String
  pub next_action : String
  pub attention_reason : Option String

abbrev projection : String → String → Option String → String → Option String → WorkflowProjection
projection stage owner waiting next reason = record {
  current_stage = stage;
  current_owner = owner;
  waiting_for = waiting;
  next_action = next;
  attention_reason = reason;
}

-- `value or default` of a value that may be missing.
unfoldable pub given_or : Option String → String → String
unfolding text_or
given_or none default = default
given_or (some value) default = text_or value default

abbrev extracting : Option String → Option WorkflowProjection
extracting waiting =
    some (projection "extracting" "AI Workflow" waiting "Wait for extraction to finish" none)

-- `_document_status_projection`, by the status and the message of an error.
unfoldable pub status_projection : DocumentStatus → Option String → Option WorkflowProjection
unfolding given_or
status_projection DocumentStatus.failed message = some (
    projection "failed" "Administrator" (some "Manual retry") "Retry document processing"
      (some (given_or message "Document processing failed.")))
status_projection DocumentStatus.uploaded message = extracting none
status_projection DocumentStatus.queued message = extracting (some "Processing worker")
status_projection DocumentStatus.processing message = extracting none
status_projection DocumentStatus.rejected message = some (
    projection "rejected" "Intake Operator" (some "Corrected invoice")
      "Upload or correct the invoice" (some "The reviewer rejected this document."))
status_projection DocumentStatus.cancelled message =
    some (projection "cancelled" "Intake Operator" none "Reprocess or upload another invoice" none)
status_projection DocumentStatus.extracted message = none
status_projection DocumentStatus.needs_review message = none
status_projection DocumentStatus.approved message = none
status_projection DocumentStatus.exported message = none

abbrev completed : WorkflowProjection
completed = projection "completed" "System" none "No action required" none

unfoldable pub without_work_item : DocumentStatus → WorkflowProjection
without_work_item status =
    if status_eq status DocumentStatus.needs_review
    then projection "needs_verification" "Reviewer" (some "Human verification")
        "Review extracted invoice data" (some "Validation requires human review.")
    else if status_eq status DocumentStatus.exported
    then completed
    else projection "ready_to_submit" "Intake Operator" (some "Business outcome")
        "Submit invoice for processing" none

abbrev item_failed : WorkItemStatus → WorkflowProjection
item_failed status =
    projection "failed" "Administrator" (some "Failure resolution")
      "Inspect failure and retry or escalate"
      (some (concat_text ("Work item is " ∷ item_status_text status ∷ "." ∷ [])))

-- The last part of `_with_work_item`, by the status of the work item.
unfoldable pub by_item_status : WorkItemStatus → WorkflowProjection
unfolding concat_text item_status_text
by_item_status WorkItemStatus.awaiting_human =
    projection "needs_attention" "Reviewer" (some "Human decision")
      "Review the latest activity and decide" (some "The workflow was escalated to a human.")
by_item_status WorkItemStatus.blocked = item_failed WorkItemStatus.blocked
by_item_status WorkItemStatus.failed = item_failed WorkItemStatus.failed
by_item_status WorkItemStatus.resolved = completed
by_item_status status =
    projection "planning" "AI Workflow" none "Review or execute the generated plan" none

abbrev pub decision_wanted : WorkflowProjection
decision_wanted =
    projection "waiting_approval" "Reviewer" (some "Approval decision")
      "Approve or reject the proposed action"
      (some "A controlled action requires explicit human approval.")

unfoldable pub with_work_item : WorkItem → Bool → WorkflowProjection
unfolding context_is given_or lookup by_item_status
with_work_item item pending_for_item =
    if context_is "correction_state" "requested" item
    then projection "correction_requested" "Uploader" (some "Corrected invoice data")
        "Correct the invoice and send it back"
        (some (
          given_or (lookup "correction_reason" item.business_context)
            "The reviewer requested a correction."))
    else if context_is "correction_state" "submitted" item
    then projection "waiting_approval" "Reviewer" (some "Reviewer decision")
        "Check the corrected invoice" none
    else if pending_for_item
    then decision_wanted
    else by_item_status item.status

unfoldable pub by_work_item : DocumentStatus → Option WorkItem → Bool → WorkflowProjection
unfolding without_work_item with_work_item
by_work_item status none pending_for_item = without_work_item status
by_work_item status (some item) pending_for_item = with_work_item item pending_for_item

unfoldable pub project_workflow_state : DocumentRecord → Option WorkItem → Bool → WorkflowProjection
unfolding status_projection by_work_item
project_workflow_state document item pending_for_item =
    elim (status_projection document.status document.error_message) [
      | some shown ↦ shown
      | none ↦ by_work_item document.status item pending_for_item
    ]

unfoldable pub has_pending : WorkItem → M Bool
unfolding list_pending
has_pending item = do
  approvals ← list_pending item.workspace_id
  pure (any (λ (a : Approval). a.work_item_id == item.id) approvals)

unfoldable pub project_workflow : DocumentRecord → Option WorkItem → M WorkflowProjection
unfolding has_pending project_workflow_state
project_workflow document none = pure (project_workflow_state document none false)
project_workflow document (some item) = do
  pending_for_item ← has_pending item
  pure (project_workflow_state document (some item) pending_for_item)
