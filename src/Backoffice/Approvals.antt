-- ===== src/Backoffice/Approvals.antt =====
-- Approvals: `Approval.approve` and `reject` of backend/app/backoffice/models.py, and the requests of
-- planning_service.py for them.
pub mod Decision
use ai_document_ops_system.Prelude.{
  ℕ, Bool, Option, none, some, String, [], ◌∷◌, str_eq, if◌then◌else◌,
}
use ai_document_ops_system.Prelude.Text.{text_or}
use ai_document_ops_system.Backoffice.Models.{
  ActionStep, Approval, ApprovalStatus, approval_status_eq,
}
use ai_document_ops_system.Backoffice.Setup.{Assistant, work_item_for_context, record_event}
use ai_document_ops_system.Backoffice.Store.{save_approval, get_approval}
use ai_document_ops_system.Core.Errors.{
  Result, ok, err, guard, not_found, value_error, backoffice_workflow,
}
use ai_document_ops_system.Core.Security.{SecurityContext}
use ai_document_ops_system.Runtime.{
  M, World, pure, raise, lift, now, new_uuid, transaction, ◌>>=◌, ◌>>◌,
}

abbrev decided : Approval → ApprovalStatus → String → Option String → M Approval
decided approval status reviewer notes = do
  reviewed_at ← now
  updated_at ← now
  pure (record approval {
    status = status;
    reviewed_by = some reviewer;
    reviewer_notes = notes;
    reviewed_at = some reviewed_at;
    updated_at = updated_at;
  })

-- `Approval.approve`, by the state of the approval.
unfoldable pub approve_by : ApprovalStatus → String → Option String → Approval → M Approval
approve_by ApprovalStatus.approved reviewer notes approval = pure approval
approve_by ApprovalStatus.rejected reviewer notes approval = raise value_error
approve_by ApprovalStatus.pending reviewer notes approval =
    decided approval ApprovalStatus.approved reviewer notes

-- `Approval.reject`
unfoldable pub reject_by : ApprovalStatus → String → Option String → Approval → M Approval
reject_by ApprovalStatus.rejected reviewer notes approval = pure approval
reject_by ApprovalStatus.approved reviewer notes approval = raise value_error
reject_by ApprovalStatus.pending reviewer notes approval =
    decided approval ApprovalStatus.rejected reviewer notes

-- `_get_approval_for_context`
unfoldable pub approval_for_context : ℕ → SecurityContext → M Approval
unfolding get_approval
approval_for_context id context = do
  approval ← get_approval id
  lift (guard (str_eq approval.workspace_id context.workspace_id) not_found)
  pure approval

-- `notes or default`
abbrev notes_or : Option String → String → String
notes_or none default = default
notes_or (some notes) default = text_or notes default

-- The event of a decision, unless the approval was in that state before.
unfoldable pub decision_event :
    Assistant
    → Approval
    → ApprovalStatus
    → Approval
    → SecurityContext
    → String
    → String
    → M (Unit {0})
unfolding work_item_for_context record_event
decision_event a before target saved context event_type summary =
    if approval_status_eq before.status target then pure tt else (do
      item ← work_item_for_context saved.work_item_id context
      record_event a item event_type context.actor summary none)

unfoldable pub approve_request : Assistant → ℕ → SecurityContext → Option String → M Approval
unfolding transaction approval_for_context approve_by save_approval decision_event text_or
approve_request a approval_id context notes = transaction (do
  approval ← approval_for_context approval_id context
  changed ← approve_by approval.status context.actor notes approval
  saved ← save_approval changed
  decision_event a approval ApprovalStatus.approved saved context "approval_approved"
      (notes_or notes "Human approval granted.")
  pure saved)

unfoldable pub reject_request : Assistant → ℕ → SecurityContext → Option String → M Approval
unfolding transaction approval_for_context reject_by save_approval decision_event text_or
reject_request a approval_id context notes = transaction (do
  approval ← approval_for_context approval_id context
  changed ← reject_by approval.status context.actor notes approval
  saved ← save_approval changed
  decision_event a approval ApprovalStatus.rejected saved context "approval_rejected"
      (notes_or notes "Human approval rejected.")
  pure saved)

unfoldable pub request_approval_for_step : ℕ → ActionStep → SecurityContext → M Approval
unfolding work_item_for_context save_approval
request_approval_for_step work_item_id step context = do
  item ← work_item_for_context work_item_id context
  lift (guard step.requires_approval backoffice_workflow)
  id ← new_uuid
  created_at ← now
  updated_at ← now
  save_approval (record {
    workspace_id = item.workspace_id;
    work_item_id = item.id;
    requested_by = context.actor;
    action_step_id = some step.id;
    draft_id = none;
    status = ApprovalStatus.pending;
    reviewed_by = none;
    reviewer_notes = none;
    reviewed_at = none;
    id = id;
    created_at = created_at;
    updated_at = updated_at;
  })
