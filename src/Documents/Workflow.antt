-- ===== src/Documents/Workflow.antt =====
-- backend/app/documents/workflow.py and state_writer.py: a change of a document's state, with the
-- audit event that records it. The changed document is returned beside the event.
pub mod Effect
use ai_document_ops_system.Prelude.{
  ℕ, Bool, true, false, not, Option, none, some, String, List, [], ◌∷◌, str_eq, if◌then◌else◌,
}
use ai_document_ops_system.Core.Errors.{
  Result, ok, err, guard, not_found, invalid_status_transition,
}
use ai_document_ops_system.Documents.Status.{
  DocumentStatus, uploaded, queued, processing, extracted, needs_review, approved, rejected, failed,
  exported, cancelled, can_transition,
}
use ai_document_ops_system.Documents.Models.{DocumentRecord, AuditEvent}
use ai_document_ops_system.Documents.Repositories.{add_audit, save_document, get_document}
use ai_document_ops_system.Runtime.{
  M, World, pure, raise, lift, now, new_uuid, transaction, ◌>>=◌, ◌>>◌,
}

-- `STATUS_EVENT_NAMES`. No transition leads to `uploaded`, which the table lacks.
unfoldable pub status_event_name : DocumentStatus → String
status_event_name uploaded = "document_uploaded"
status_event_name queued = "processing_queued"
status_event_name processing = "processing_started"
status_event_name extracted = "processing_finished"
status_event_name needs_review = "review_required"
status_event_name approved = "document_approved"
status_event_name rejected = "document_rejected"
status_event_name failed = "processing_failed"
status_event_name exported = "document_exported"
status_event_name cancelled = "intake_cancelled"

-- The fields of `AuditEvent` that have defaults are drawn here.
unfoldable pub new_event :
    ℕ
    → String
    → String
    → Option DocumentStatus
    → Option DocumentStatus
    → Option String
    → M AuditEvent
new_event document_id event_type actor old_status new_status payload_summary = do
  id ← new_uuid
  created_at ← now
  pure (record {
    document_id = document_id;
    event_type = event_type;
    actor = actor;
    old_status = old_status;
    new_status = new_status;
    payload_summary = payload_summary;
    id = id;
    created_at = created_at;
  })

unfoldable pub require_transition : DocumentStatus → DocumentStatus → Result (Unit {0})
unfolding can_transition
require_transition current target = guard (can_transition current target) invalid_status_transition

-- `DocumentWorkflowService.transition`
unfoldable pub workflow_transition :
    DocumentRecord → DocumentStatus → String → Option String → M (DocumentRecord × AuditEvent)
unfolding require_transition new_event status_event_name
workflow_transition document target actor payload_summary = do
  lift (require_transition document.status target)
  updated ← now
  event ←
      new_event document.id (status_event_name target) actor (some document.status) (some target)
        payload_summary
  pure (record document { status = target; updated_at = updated }, event)

unfoldable pub record_upload : DocumentRecord → String → M AuditEvent
unfolding new_event
record_upload document actor =
    new_event document.id "document_uploaded" actor none (some document.status) none

-- `DocumentStateWriter._transition`
unfoldable pub write_transition :
    DocumentRecord → DocumentStatus → String → Option String → M DocumentRecord
unfolding workflow_transition add_audit save_document
write_transition document target actor payload_summary = do
  (changed, event) ← workflow_transition document target actor payload_summary
  add_audit event
  save_document changed
  pure changed

-- `DocumentStateWriter.transition`
unfoldable pub transition :
    DocumentRecord → DocumentStatus → String → Option String → M DocumentRecord
unfolding transaction write_transition
transition document target actor payload_summary =
    transaction (write_transition document target actor payload_summary)

unfoldable pub workspace_document : ℕ → String → M DocumentRecord
unfolding get_document
workspace_document document_id workspace_id = do
  document ← get_document document_id
  lift (guard (str_eq document.workspace_id workspace_id) not_found)
  pure document

unfoldable pub transition_each :
    List ℕ → String → DocumentStatus → String → Option String → M (List DocumentRecord)
unfolding workspace_document write_transition
transition_each [] workspace_id target actor payload_summary = pure []
transition_each (id ∷ ids) workspace_id target actor payload_summary = do
  document ← workspace_document id workspace_id
  changed ← write_transition document target actor payload_summary
  rest ← transition_each ids workspace_id target actor payload_summary
  pure (changed ∷ rest)

-- `DocumentStateWriter.transition_many_by_id`
unfoldable pub transition_many_by_id :
    List ℕ → String → DocumentStatus → String → Option String → M (List DocumentRecord)
unfolding transaction transition_each
transition_many_by_id ids workspace_id target actor payload_summary =
    transaction (transition_each ids workspace_id target actor payload_summary)
