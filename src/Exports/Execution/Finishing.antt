-- ===== src/Exports/Execution/Finishing.antt =====
-- The end of an export run of backend/app/exports/execution.py: completion, failure and retry.
use ai_document_ops_system.Prelude.{ℕ, Bool, not, ◌&&◌, some, String, map, if◌then◌else◌}
use ai_document_ops_system.Prelude.Text.{is_empty_text, strip}
use ai_document_ops_system.Core.Errors.{guard, value_error, runtime_error, export_eligibility}
use ai_document_ops_system.Core.Security.{SecurityContext, require_admin}
use ai_document_ops_system.Documents.Status.{DocumentStatus}
use ai_document_ops_system.Documents.Workflow.{transition_many_by_id}
use ai_document_ops_system.Exports.Models.{
  ExportBatchRecord, ExportBatchStatus, ExportRunRecord, in_progress, succeeded, run_failed,
  run_status_eq,
}
use ai_document_ops_system.Exports.Repository.{save_batch, save_run}
use ai_document_ops_system.Runtime.{M, pure, raise, lift, try, now, transaction, ◌>>=◌, ◌>>◌}
use ai_document_ops_system.Exports.Execution.{
  Reservation, Reserved, replayed, fresh, ExportSetup, batch_of, run_of, is_coherent, failed_run,
  marked, reserve,
}

-- `_require_ownership`
unfoldable pub owns : ExportBatchRecord → ExportRunRecord → Bool
unfolding is_coherent
owns batch run = run_status_eq run.status in_progress && is_coherent batch run

unfoldable pub complete : ExportSetup → SecurityContext → Reservation → M ExportRunRecord
unfolding transaction batch_of run_of owns transition_many_by_id save_run save_batch
complete setup context reservation = do
  csv_text ← setup.render (map (λ d. d.id) reservation.documents)
  at ← now
  let done =
      let r : ExportRunRecord = record reservation.run {
        status = succeeded;
        file_name = some (setup.file_name reservation.started_at reservation.run.id);
        artifact_content = some csv_text;
        completed_at = some at;
        updated_at = at;
      } in
      r
  transaction (do
    current_batch ← batch_of context.workspace_id reservation.batch.id
    current_run ← run_of context.workspace_id reservation.run.id
    lift (guard (owns current_batch current_run) export_eligibility)
    transition_many_by_id reservation.run.document_ids context.workspace_id DocumentStatus.exported
        context.actor (some (setup.run_summary reservation.run.id))
    save_run done
    save_batch (marked current_batch ExportBatchStatus.completed at))
  pure done

unfoldable pub fail : String → Reservation → M (Unit {0})
unfolding transaction run_of batch_of save_run save_batch is_coherent
fail workspace_id reservation = do
  at ← now
  transaction (do
    current_run ← run_of workspace_id reservation.run.id
    if not (run_status_eq current_run.status in_progress) then pure tt else (do
      save_run (
          failed_run current_run "export_generation_failed"
            "The export file could not be generated." at)
      current_batch ← batch_of workspace_id reservation.batch.id
      if is_coherent current_batch reservation.run
          then (do save_batch (marked current_batch ExportBatchStatus.failed at); pure tt)
          else pure tt))

unfoldable pub finish : ExportSetup → SecurityContext → Reserved → M ExportRunRecord
unfolding complete fail
finish setup context (replayed run) = pure run
finish setup context (fresh reservation) =
    try (complete setup context reservation)
      (λ e. do fail context.workspace_id reservation; raise runtime_error)

unfoldable pub execute : ExportSetup → SecurityContext → ℕ → String → M ExportRunRecord
unfolding require_admin reserve finish strip
execute setup context batch_id idempotency_key = do
  lift (require_admin context)
  lift (guard (not (is_empty_text (strip idempotency_key))) value_error)
  reserved ← reserve setup context batch_id (strip idempotency_key)
  finish setup context reserved

unfoldable pub retry : ExportSetup → SecurityContext → ℕ → String → M ExportRunRecord
unfolding run_of execute
retry setup context run_id idempotency_key = do
  prior ← run_of context.workspace_id run_id
  lift (guard (run_status_eq prior.status run_failed && prior.retryable) export_eligibility)
  execute setup context prior.batch_id idempotency_key
