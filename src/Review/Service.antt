-- ===== src/Review/Service.antt =====
-- `ReviewService` of backend/app/review/services.py, with the feedback service that records
-- corrections, as the application composes it.
use ai_document_ops_system.Prelude.{ℕ, not, Option, none, some, String, List, [], ◌∷◌}
use ai_document_ops_system.Core.Errors.{guard, invalid_status_transition}
use ai_document_ops_system.Core.Security.{SecurityContext, require_any_role}
use ai_document_ops_system.Documents.DuplicateCheck.{validate_document_invoice}
use ai_document_ops_system.Documents.Models.{DocumentRecord, ReviewTask}
use ai_document_ops_system.Documents.Repositories.{
  get_extraction, save_extraction, add_audit, list_by_workspace_and_status, save_review_task,
  find_review_task,
}
use ai_document_ops_system.Documents.Status.{DocumentStatus, status_eq}
use ai_document_ops_system.Documents.Workflow.{new_event, transition, workspace_document}
use ai_document_ops_system.Invoice.Schemas.{InvoiceData, Unicode}
use ai_document_ops_system.Invoice.Validation.{has_errors}
use ai_document_ops_system.Review.Corrections.Capture.{capture}
use ai_document_ops_system.Review.Models.{reviewer_edit}
use ai_document_ops_system.Runtime.{M, pure, lift, now, new_uuid, transaction, ◌>>=◌, ◌>>◌}

abbrev review_roles : List String
review_roles = "admin" ∷ "reviewer" ∷ []

unfoldable pub list_queue : SecurityContext → M (List DocumentRecord)
unfolding require_any_role list_by_workspace_and_status
list_queue context = do
  lift (require_any_role context review_roles)
  list_by_workspace_and_status context.workspace_id DocumentStatus.needs_review

-- `ReviewTask(document_id=document_id)`
unfoldable pub new_review_task : ℕ → M ReviewTask
new_review_task document_id = do
  id ← new_uuid
  created_at ← now
  updated_at ← now
  pure (record {
    document_id = document_id;
    status = "open";
    reviewer_notes = none;
    assigned_to = none;
    reviewed_by = none;
    reviewed_at = none;
    id = id;
    created_at = created_at;
    updated_at = updated_at;
  })

unfoldable pub task_or_new : ℕ → Option ReviewTask → M ReviewTask
unfolding new_review_task
task_or_new document_id (some task) = pure task
task_or_new document_id none = new_review_task document_id

unfoldable pub get_or_create_task : ℕ → M ReviewTask
unfolding find_review_task task_or_new
get_or_create_task document_id = do
  found ← find_review_task document_id
  task_or_new document_id found

-- The task as the reviewer leaves it.
unfoldable pub close_task : ReviewTask → String → Option String → SecurityContext → M ReviewTask
unfolding save_review_task
close_task task status notes context = do
  t ← now
  save_review_task (record task {
    status = status;
    reviewer_notes = notes;
    reviewed_by = some context.actor;
    reviewed_at = some t;
    updated_at = t;
  })

-- The guards of the three operations: the caller's role, the document in the caller's workspace and
-- its state.
unfoldable pub reviewable : ℕ → SecurityContext → M DocumentRecord
unfolding workspace_document
reviewable document_id context = do
  lift (require_any_role context review_roles)
  document ← workspace_document document_id context.workspace_id
  lift (guard (status_eq document.status DocumentStatus.needs_review) invalid_status_transition)
  pure document

module _ ⦃u : Unicode⦄ where
  -- The branch of `save_review` for corrected data.
  unfoldable pub save_correction :
      DocumentRecord → ℕ → String → SecurityContext → Option InvoiceData → M (Unit {0})
  unfolding get_extraction capture validate_document_invoice save_extraction new_event add_audit
  save_correction document document_id notes context none = pure tt
  save_correction document document_id notes context (some corrected) = do
    stored ← get_extraction document_id
    let old = stored.extraction_result
    capture document.workspace_id document_id old.extraction.invoice corrected context.actor
        (some notes) reviewer_edit none
    report ← validate_document_invoice corrected document
    save_extraction document_id
        (record {
          extraction = record {
            invoice = corrected;
            schema_version = old.extraction.schema_version;
            confidence = old.extraction.confidence;
          };
          provider_name = old.provider_name;
          provider_trace_id = old.provider_trace_id;
        })
        report
    event ←
        new_event document_id "extraction_updated" context.actor (some document.status)
          (some document.status) (some "corrected extraction saved")
    add_audit event
    pure tt

  unfoldable pub save_review : ℕ → String → SecurityContext → Option InvoiceData → M ReviewTask
  unfolding reviewable transaction save_correction get_or_create_task new_event add_audit
      save_review_task
  save_review document_id notes context corrected = do
    document ← reviewable document_id context
    transaction (do
      save_correction document document_id notes context corrected
      task ← get_or_create_task document_id
      t ← now
      event ←
          new_event document_id "review_saved" context.actor (some document.status)
            (some document.status) (some "review notes saved")
      add_audit event
      save_review_task (record task {
        reviewer_notes = some notes;
        reviewed_by = some context.actor;
        reviewed_at = some t;
        updated_at = t;
      }))

unfoldable pub approve : ℕ → SecurityContext → M ReviewTask
unfolding get_extraction transaction
approve document_id context = do
  document ← reviewable document_id context
  stored ← get_extraction document_id
  lift (guard (not (has_errors stored.validation_report)) invalid_status_transition)
  transaction (do
    task ← get_or_create_task document_id
    transition document DocumentStatus.approved context.actor none
    close_task task "approved" task.reviewer_notes context)

unfoldable pub reject : ℕ → String → SecurityContext → M ReviewTask
unfolding reviewable transaction get_or_create_task transition close_task
reject document_id notes context = do
  document ← reviewable document_id context
  transaction (do
    task ← get_or_create_task document_id
    transition document DocumentStatus.rejected context.actor (some "document rejected")
    close_task task "rejected" (some notes) context)
