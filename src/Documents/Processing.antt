-- ===== src/Documents/Processing.antt =====
-- `DocumentProcessingService` of backend/app/documents/services.py.
pub mod Outcome
use ai_document_ops_system.Prelude.{
  ℕ, Bool, true, false, not, ◌&&◌, ◌||◌, Option, none, some, String, List, [], ◌∷◌, str_eq, opt_eq,
  is_none, if◌then◌else◌,
}
use ai_document_ops_system.Core.Errors.{
  Error, Result, ok, err, guard, not_found, lease_lost, invalid_status_transition,
}
use ai_document_ops_system.Core.Security.{
  SecurityContext, intake_roles, require_admin, require_any_role, is_intake_role,
}
use ai_document_ops_system.Documents.Status.{DocumentStatus, status_eq, status_in}
use ai_document_ops_system.Documents.Models.{DocumentRecord}
use ai_document_ops_system.Documents.JobModel.{ProcessingJob}
use ai_document_ops_system.Documents.JobStore
use ai_document_ops_system.Documents.Leases.{require_processable_status, acquire}
use ai_document_ops_system.Documents.Pipeline.{Providers, Extracted, extract}
use ai_document_ops_system.Documents.Repositories.{get_document}
use ai_document_ops_system.Documents.Results.{record_success, record_failure}
use ai_document_ops_system.Documents.RetryPolicy.{RetryPolicy}
use ai_document_ops_system.Documents.Workflow.{transition}
use ai_document_ops_system.Invoice.Schemas.{Unicode}
use ai_document_ops_system.Runtime.{M, World, pure, lift, ◌>>=◌, ◌>>◌}

unfoldable pub require_workspace : DocumentRecord → SecurityContext → Result (Unit {0})
require_workspace document context =
    guard (str_eq document.workspace_id context.workspace_id) not_found

unfoldable pub require_owner_for_intake_role : DocumentRecord → SecurityContext → Result (Unit {0})
unfolding is_intake_role
require_owner_for_intake_role document context =
    guard (not (is_intake_role context && not (str_eq document.submitted_by context.user_id)))
      not_found

-- `record_failure` after an extraction that raised, `record_success` after one that did not.
unfoldable pub record_outcome :
    RetryPolicy
    → DocumentRecord
    → ProcessingJob
    → SecurityContext
    → ℕ
    → Result Extracted
    → M DocumentRecord
unfolding record_success record_failure
record_outcome policy document job context lease_token (ok extracted) =
    record_success document job context extracted lease_token
record_outcome policy document job context lease_token (err error) =
    record_failure policy document job context error lease_token

-- `try: extract ... except Exception`, the exception handed on as a value.
abbrev pub attempt : {A : Type 0} → M A → M (Result A)
attempt m w = let (r, w') = m w in (ok r, w')

module _ ⦃u : Unicode⦄ (p : Providers) (policy : RetryPolicy) where
  unfoldable pub begin_processing : DocumentRecord → SecurityContext → M DocumentRecord
  unfolding transition
  begin_processing document context =
      if not (status_eq document.status DocumentStatus.processing)
      then transition document DocumentStatus.processing context.actor none
      else pure document

  -- `_process_job`
  unfoldable pub run_job : ProcessingJob → SecurityContext → Option ℕ → M DocumentRecord
  unfolding get_document require_workspace require_processable_status acquire begin_processing
      record_outcome
  run_job job context claimed = do
    document ← get_document job.document_id
    lift (require_workspace document context)
    lift (require_processable_status job)
    lift (
        guard (status_in document.status (DocumentStatus.queued ∷ DocumentStatus.processing ∷ []))
          invalid_status_transition)
    (held, lease_token) ← acquire job claimed
    begun ← begin_processing document context
    outcome ← attempt (extract p begun)
    record_outcome policy begun held context lease_token outcome

  unfoldable pub process_job : ℕ → SecurityContext → Option ℕ → M DocumentRecord
  unfolding require_admin JobStore.get run_job
  process_job job_id context lease_token = do
    lift (require_admin context)
    job ← JobStore.get job_id
    lift (guard (is_none lease_token || opt_eq job.lease_token lease_token) lease_lost)
    run_job job context lease_token

  unfoldable pub process_document : ℕ → SecurityContext → M DocumentRecord
  unfolding require_any_role get_document require_workspace require_owner_for_intake_role
      JobStore.get_latest_for_document run_job
  process_document document_id context = do
    lift (require_any_role context ("admin" ∷ intake_roles))
    document ← get_document document_id
    lift (require_workspace document context)
    lift (require_owner_for_intake_role document context)
    job ← JobStore.get_latest_for_document document_id
    run_job job context none
