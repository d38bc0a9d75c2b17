-- ===== src/Documents/Worker.antt =====
-- backend/app/documents/worker.py. A heartbeat renews the lease while a job is processed: its calls
-- of `renew_lease` are among what the providers' calls may do.
pub mod Delivery
pub mod Limit
use ai_document_ops_system.Prelude.{
  ℕ, ◌-◌, ◌*◌, leb, max, Bool, true, false, not, Option, none, some, String, ◌==◌, if◌then◌else◌,
}
use ai_document_ops_system.Core.Errors.{Error, Result, ok, err, not_found, lease_lost, require_some}
use ai_document_ops_system.Core.Security.{SecurityContext}
use ai_document_ops_system.Documents.Contracts.{ProcessingMessage}
use ai_document_ops_system.Documents.Models.{DocumentRecord}
use ai_document_ops_system.Documents.JobModel.{ProcessingJob}
use ai_document_ops_system.Documents.JobStore
use ai_document_ops_system.Documents.Pipeline.{Providers}
use ai_document_ops_system.Documents.Processing.{process_job}
use ai_document_ops_system.Documents.Queue.{
  QueueDisposition, complete, abandon, dead_letter, receive_one,
}
use ai_document_ops_system.Documents.RetryPolicy.{RetryPolicy}
use ai_document_ops_system.Invoice.Schemas.{Unicode}
use ai_document_ops_system.Runtime.{M, World, pure, lift, try, now, ◌>>=◌, ◌>>◌}

-- `now - timedelta(seconds=max(1, lease_seconds))`
unfoldable pub stale_before : ℕ → ℕ → ℕ
stale_before lease_seconds current = current - max 1 lease_seconds * 1_000_000

abbrev queue_context : ProcessingMessage → SecurityContext
queue_context m = record {
  actor = "service-bus-worker";
  is_admin = true;
  workspace_id = m.workspace_id;
  user_id = "service-bus-worker";
  role = "admin";
  trace_id = some m.trace_id;
}

-- The `except` clauses of `QueueProcessingWorker._handle`.
unfoldable pub disposition_of : ℕ → ℕ → Error → M QueueDisposition
disposition_of max_delivery_count delivery_count not_found = pure dead_letter
disposition_of max_delivery_count delivery_count lease_lost = pure complete
disposition_of max_delivery_count delivery_count e =
    pure (if leb (max 1 max_delivery_count) delivery_count then dead_letter else abandon)

module _ ⦃u : Unicode⦄ (p : Providers) (policy : RetryPolicy) (lease_seconds : ℕ) where
  unfoldable pub run_claimed : Option ProcessingJob → SecurityContext → M (Option DocumentRecord)
  unfolding process_job
  run_claimed none context = pure none
  run_claimed (some job) context = do
    token ← lift (require_some job.lease_token lease_lost)
    document ← process_job p policy job.id context (some token)
    pure (some document)

  unfoldable pub run_once : SecurityContext → M (Option DocumentRecord)
  unfolding JobStore.claim_next_processable run_claimed stale_before
  run_once context = do
    current ← now
    job ← JobStore.claim_next_processable (some (stale_before lease_seconds current)) current
    run_claimed job context

  unfoldable pub run_by_id : ℕ → SecurityContext → M (Option DocumentRecord)
  unfolding JobStore.claim_processable run_claimed stale_before
  run_by_id job_id context = do
    current ← now
    job ← JobStore.claim_processable job_id (some (stale_before lease_seconds current)) current
    run_claimed job context

  -- The body of the `try` of `_handle`.
  unfoldable pub handle_checked : ProcessingMessage → M QueueDisposition
  unfolding JobStore.get run_by_id
  handle_checked message = do
    job ← JobStore.get message.job_id
    if not (job.document_id == message.document_id)
        then pure dead_letter
        else (do run_by_id message.job_id (queue_context message); pure complete)

  unfoldable pub handle_message : ℕ → ProcessingMessage → ℕ → M QueueDisposition
  unfolding handle_checked disposition_of
  handle_message max_delivery_count message delivery_count =
      try (handle_checked message) (disposition_of max_delivery_count delivery_count)

  -- `QueueProcessingWorker.run_once`
  unfoldable pub serve_one : ℕ → M Bool
  unfolding receive_one handle_message
  serve_one max_delivery_count = receive_one (handle_message max_delivery_count)
