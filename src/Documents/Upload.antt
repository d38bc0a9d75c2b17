-- ===== src/Documents/Upload.antt =====
-- `DocumentUploadService` of backend/app/documents/services.py. The scanner and the file storage are
-- outside the model: `save_upload_stream` hands over what it stored, or raises.
use ai_document_ops_system.Prelude.{ℕ, none, String, ◌∷◌}
use ai_document_ops_system.Core.Errors.{Error}
use ai_document_ops_system.Core.Security.{SecurityContext, intake_roles, require_any_role}
use ai_document_ops_system.Documents.Status.{DocumentStatus}
use ai_document_ops_system.Documents.Models.{DocumentRecord}
use ai_document_ops_system.Documents.JobModel.{ProcessingJob}
use ai_document_ops_system.Documents.Jobs
use ai_document_ops_system.Documents.JobStore
use ai_document_ops_system.Documents.Queue.{publish_wakeup}
use ai_document_ops_system.Documents.Repositories.{add_audit, save_document}
use ai_document_ops_system.Documents.Workflow.{record_upload, transition}
use ai_document_ops_system.Runtime.{
  M, pure, raise, lift, try, now, new_uuid, transaction, ◌>>=◌, ◌>>◌,
}

pub record StoredUpload : Type 0 where
  pub original_filename : String
  pub storage_key : String
  pub content_type : String
  pub size_bytes : ℕ

pub record Storage : Type 0 where
  pub save_upload_stream : String → M StoredUpload
  pub delete : String → M (Unit {0})

-- `DocumentRecord(...)` with the defaults of its other fields.
unfoldable pub new_document : StoredUpload → SecurityContext → M DocumentRecord
new_document stored context = do
  id ← new_uuid
  created_at ← now
  updated_at ← now
  pure (record {
    original_filename = stored.original_filename;
    storage_key = stored.storage_key;
    content_type = stored.content_type;
    workspace_id = context.workspace_id;
    submitted_by = context.user_id;
    size_bytes = stored.size_bytes;
    id = id;
    status = DocumentStatus.uploaded;
    created_at = created_at;
    updated_at = updated_at;
    error_message = none;
  })

-- The body of the `with` block.
unfoldable pub register : StoredUpload → SecurityContext → M (DocumentRecord × ProcessingJob)
unfolding new_document save_document record_upload add_audit transition Jobs.new_job JobStore.add
register stored context = do
  created ← new_document stored context
  document ← save_document created
  event ← record_upload document context.actor
  add_audit event
  queued ← transition document DocumentStatus.queued context.actor none
  fresh ← Jobs.new_job queued.id
  job ← JobStore.add fresh
  pure (queued, job)

-- `UploadPersistenceError` takes the place of the exception if the file cannot be removed either.
unfoldable pub clean_up : Storage → String → Error → M (DocumentRecord × ProcessingJob)
clean_up s storage_key error = do
  try (s.delete storage_key) (λ e. raise (Error.other "UploadPersistenceError"))
  raise error

unfoldable pub upload_pdf :
    (ℕ → String) → Storage → String → SecurityContext → M (DocumentRecord × ProcessingJob)
unfolding require_any_role transaction register clean_up publish_wakeup
upload_pdf hex s original_filename context = do
  lift (require_any_role context ("admin" ∷ intake_roles))
  stored ← s.save_upload_stream original_filename
  (document, job) ← try (transaction (register stored context)) (clean_up s stored.storage_key)
  publish_wakeup hex job document context
  pure (document, job)
