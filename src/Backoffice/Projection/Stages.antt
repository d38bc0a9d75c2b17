-- ===== src/Backoffice/Projection/Stages.antt =====
-- When the interface asks a reviewer for a decision.
use ai_document_ops_system.Prelude.{
  Bool, true, false, not, ◌&&◌, ◌||◌, some, [], ◌∷◌, ◌==◌, ◌≡◌, refl, sym, any, any-select, str_eq,
  Bool-cases, inl, inr, if◌then◌else◌,
}
use ai_document_ops_system.Prelude.Dict.{values}
use ai_document_ops_system.Backoffice.Execution.Outcome.{context_is}
use ai_document_ops_system.Backoffice.Models.{
  WorkItem, WorkItemStatus, Approval, ApprovalStatus, approval_status_eq,
}
use ai_document_ops_system.Backoffice.Projection.{
  WorkflowProjection, decision_wanted, by_item_status, with_work_item, project_workflow_state,
  project_workflow,
}
use ai_document_ops_system.Core.Errors.{ok}
use ai_document_ops_system.Documents.Models.{DocumentRecord}
use ai_document_ops_system.Documents.Status.{
  DocumentStatus, extracted, needs_review, approved, exported, status_in,
}
use ai_document_ops_system.Runtime.{World}

abbrev pub awaits_decision : WorkflowProjection → Bool
awaits_decision shown = str_eq shown.current_stage "waiting_approval"

-- The approval waits for the decision on this work item.
abbrev pub is_open : WorkItem → Approval → Bool
is_open item a =
    (str_eq a.workspace_id item.workspace_id && approval_status_eq a.status ApprovalStatus.pending)
    && a.work_item_id == item.id

by_item_status_lem : (status : WorkItemStatus) → awaits_decision (by_item_status status) ≡ false
unfolding by_item_status
by_item_status_lem WorkItemStatus.new = refl
by_item_status_lem WorkItemStatus.classified = refl
by_item_status_lem WorkItemStatus.planning = refl
by_item_status_lem WorkItemStatus.awaiting_human = refl
by_item_status_lem WorkItemStatus.ready_to_execute = refl
by_item_status_lem WorkItemStatus.executing = refl
by_item_status_lem WorkItemStatus.resolved = refl
by_item_status_lem WorkItemStatus.blocked = refl
by_item_status_lem WorkItemStatus.failed = refl

-- What a work item asks a reviewer for.
abbrev pub asks : WorkItem → Bool → Bool
asks item pending_for_item =
    not (context_is "correction_state" "requested" item)
    && (context_is "correction_state" "submitted" item || pending_for_item)

last_part :
    (status : WorkItemStatus) (pending : Bool)
    → awaits_decision (if pending then decision_wanted else by_item_status status) ≡ pending
last_part status true = refl
last_part status false = by_item_status_lem status

with_work_item_lem :
    (item : WorkItem) (pending_for_item : Bool)
    → awaits_decision (with_work_item item pending_for_item) ≡ asks item pending_for_item
unfolding with_work_item
with_work_item_lem item pending =
    elim (Bool-cases (context_is "correction_state" "requested" item)) [
      | inl requested ↦ rw requested refl
      | inr free ↦ rw free (elim (Bool-cases (context_is "correction_state" "submitted" item)) [
        | inl submitted ↦ rw submitted refl
        | inr idle ↦ rw idle (last_part item.status pending)
      ])
    ]

-- The states that leave the stage of an invoice to its work item.
abbrev pub is_extracted : DocumentStatus → Bool
is_extracted status = status_in status (extracted ∷ needs_review ∷ approved ∷ exported ∷ [])

state_lem :
    (document : DocumentRecord) (status : DocumentStatus) (item : WorkItem) (pending : Bool)
    → awaits_decision
        (project_workflow_state (record document { status = status }) (some item) pending)
      ≡ (is_extracted status && asks item pending)
unfolding project_workflow_state
state_lem document DocumentStatus.uploaded item pending = refl
state_lem document DocumentStatus.queued item pending = refl
state_lem document DocumentStatus.processing item pending = refl
state_lem document DocumentStatus.rejected item pending = refl
state_lem document DocumentStatus.failed item pending = refl
state_lem document DocumentStatus.cancelled item pending = refl
state_lem document DocumentStatus.extracted item pending = with_work_item_lem item pending
state_lem document DocumentStatus.needs_review item pending = with_work_item_lem item pending
state_lem document DocumentStatus.approved item pending = with_work_item_lem item pending
state_lem document DocumentStatus.exported item pending = with_work_item_lem item pending

-- Showing the stage of an invoice with a work item changes nothing. The stage asks for a reviewer's
-- decision exactly where the document is extracted, in review, approved or exported, no correction
-- is requested of the uploader, and a correction was submitted or an approval of this work item, in
-- its workspace, is stored as pending.
pub decision_asked :
    (document : DocumentRecord) (item : WorkItem) (w : World)
    → (shown : WorkflowProjection) × (project_workflow document (some item) w ≡ (ok shown, w))
      × (awaits_decision shown ≡ (
          is_extracted document.status
          && asks item (any (is_open item) (values w.tables.approvals))))
unfolding project_workflow
decision_asked document item w = (
  _,
  refl,
  rw
      (sym (
        any-select
          (λ a.
            str_eq a.workspace_id item.workspace_id
            && approval_status_eq a.status ApprovalStatus.pending)
          (λ a. a.work_item_id == item.id) (values w.tables.approvals)))
      (state_lem document document.status item _),
)
