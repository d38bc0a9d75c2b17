-- ===== src/Documents/Lifecycle.antt =====
-- backend/app/documents/lifecycle_commands.py
use ai_document_ops_system.Prelude.{ℕ, Bool, ◌||◌, none, some, String, List, [], ◌∷◌}
use ai_document_ops_system.Core.Errors.{guard, invalid_status_transition}
use ai_document_ops_system.Core.Security.{SecurityContext, require_admin}
use ai_document_ops_system.Documents.Status.{DocumentStatus, status_in}
use ai_document_ops_system.Documents.Models.{DocumentRecord}
use ai_document_ops_system.Documents.JobModel.{ProcessingJob, ProcessingJobStatus, job_status_eq}
use ai_document_ops_system.Documents.Jobs
use ai_document_ops_system.Documents.JobStore
use ai_document_ops_system.Documents.Queue.{publish_wakeup}
use ai_document_ops_system.Documents.Workflow.{transition, workspace_document}
use ai_document_ops_system.Runtime.{M, pure, lift, transaction, ◌>>=◌, ◌>>◌}

-- The job states in which an intake can be cancelled.
unfoldable pub is_cancellable : ProcessingJob → Bool
is_cancellable job =
    job_status_eq job.status ProcessingJobStatus.queued
    || job_status_eq job.status ProcessingJobStatus.retrying
    || job_status_eq job.status ProcessingJobStatus.failed
    || job_status_eq job.status ProcessingJobStatus.dead_letter

unfoldable pub cancel : ℕ → SecurityContext → M DocumentRecord
unfolding require_admin workspace_document is_cancellable transaction Jobs.cancel JobStore.save
    transition JobStore.get_latest_for_document
cancel document_id context = do
  lift (require_admin context)
  document ← workspace_document document_id context.workspace_id
  lift (
      guard (status_in document.status (DocumentStatus.queued ∷ DocumentStatus.failed ∷ []))
        invalid_status_transition)
  job ← JobStore.get_latest_for_document document_id
  lift (guard (is_cancellable job) invalid_status_transition)
  transaction (do
    cancelled ← Jobs.cancel job
    JobStore.save none cancelled
    transition document DocumentStatus.cancelled context.actor
        (some "intake cancelled by operator"))

module _ (hex : ℕ → String) where
  unfoldable pub enqueue : ℕ → SecurityContext → List DocumentStatus → String → M DocumentRecord
  unfolding require_admin workspace_document transaction transition Jobs.new_job JobStore.add
      publish_wakeup
  enqueue document_id context allowed_statuses audit_summary = do
    lift (require_admin context)
    document ← workspace_document document_id context.workspace_id
    lift (guard (status_in document.status allowed_statuses) invalid_status_transition)
    (queued, job) ← transaction (do
      changed ←
          transition (record document { error_message = none }) DocumentStatus.queued context.actor
            (some audit_summary)
      created ← Jobs.new_job document.id
      added ← JobStore.add created
      pure (changed, added))
    publish_wakeup hex job queued context
    pure queued

  unfoldable pub retry_failed : ℕ → SecurityContext → String → M DocumentRecord
  unfolding enqueue
  retry_failed document_id context reason =
      enqueue document_id context (DocumentStatus.failed ∷ []) reason

  unfoldable pub reprocess : ℕ → SecurityContext → String → M DocumentRecord
  unfolding enqueue
  reprocess document_id context reason =
      enqueue document_id context
        (DocumentStatus.extracted ∷ DocumentStatus.needs_review ∷ DocumentStatus.failed
          ∷ DocumentStatus.cancelled ∷ [])
        reason
