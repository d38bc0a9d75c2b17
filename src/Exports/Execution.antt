-- ===== src/Exports/Execution.antt =====
-- backend/app/exports/execution.py: one export run under an idempotency key. The execution lock
-- makes a call one step. Rendering the file and naming it are parameters.
pub mod Replay
pub mod Finishing
use ai_document_ops_system.Prelude.{
  ℕ, suc, ◌+◌, max, ltb, Bool, true, false, not, ◌&&◌, ◌||◌, Option, none, some, String, List, [],
  ◌∷◌, ◌==◌, opt_eq, str_eq, select, map, if◌then◌else◌,
}
use ai_document_ops_system.Prelude.Text.{is_empty_text, strip}
use ai_document_ops_system.Core.Errors.{
  Error, Result, ok, err, guard, require_some, value_error, runtime_error, export_batch_not_found,
  export_run_not_found, export_idempotency_conflict, export_eligibility,
}
use ai_document_ops_system.Core.Security.{SecurityContext, require_admin}
use ai_document_ops_system.Documents.Models.{DocumentRecord}
use ai_document_ops_system.Documents.Repositories.{get_document}
use ai_document_ops_system.Documents.Status.{DocumentStatus}
use ai_document_ops_system.Documents.Workflow.{transition_many_by_id}
use ai_document_ops_system.Exports.Eligibility.{ExportDestination, checks_pass}
use ai_document_ops_system.Exports.Models.{
  ExportBatchRecord, ExportBatchStatus, batch_status_eq, ExportRunRecord, in_progress, succeeded,
  run_failed, run_status_eq,
}
use ai_document_ops_system.Exports.Repository.{
  save_batch, get_batch, save_run, get_run, get_run_by_key, reserve_run, runs_of,
}
use ai_document_ops_system.Runtime.{
  M, World, pure, raise, lift, read, try, now, new_uuid, transaction, ◌>>=◌, ◌>>◌,
}

abbrev pub abandoned_run_after : ℕ
abandoned_run_after = 600_000_000

pub record Reservation : Type 0 where
  pub batch : ExportBatchRecord
  pub run : ExportRunRecord
  pub documents : List DocumentRecord
  pub started_at : ℕ

pub data Reserved : Type 0 where
  replayed : ExportRunRecord → Reserved
  fresh : Reservation → Reserved

-- What the execution takes from outside: the configured destinations, the rendered file and its
-- name. The text of the summary that names the run is left to `run_summary`.
pub record ExportSetup : Type 0 where
  pub destinations : List ExportDestination
  pub render : List ℕ → M String
  pub file_name : ℕ → ℕ → String
  pub run_summary : ℕ → String

unfoldable pub batch_of : String → ℕ → M ExportBatchRecord
unfolding get_batch
batch_of workspace_id id = do
  found ← get_batch workspace_id id
  lift (require_some found export_batch_not_found)

unfoldable pub run_of : String → ℕ → M ExportRunRecord
unfolding get_run
run_of workspace_id id = do
  found ← get_run workspace_id id
  lift (require_some found export_run_not_found)

-- The run still has the batch: both are running, and the batch names the run.
unfoldable pub is_coherent : ExportBatchRecord → ExportRunRecord → Bool
is_coherent batch run =
    batch_status_eq batch.status ExportBatchStatus.running && opt_eq batch.last_run_id (some run.id)

abbrev failed_run : ExportRunRecord → String → String → ℕ → ExportRunRecord
failed_run run code message at = record run {
  status = run_failed;
  error_code = some code;
  error_message = some message;
  retryable = true;
  completed_at = some at;
  updated_at = at;
}

abbrev marked : ExportBatchRecord → ExportBatchStatus → ℕ → ExportBatchRecord
marked batch status at = record batch { status = status; updated_at = at }

-- The last part of `_reconcile_replayed_run`: an abandoned run is closed, and so is its batch.
unfoldable pub abandon : ExportBatchRecord → ExportRunRecord → ℕ → M ExportRunRecord
unfolding save_run save_batch is_coherent
abandon batch run at = do
  let failed = failed_run run "export_run_abandoned" "The previous export run did not finish." at
  save_run failed
  if is_coherent batch run
      then (do save_batch (marked batch ExportBatchStatus.failed at); pure failed)
      else pure failed

unfoldable pub reconcile_replayed_run : String → ℕ → ExportRunRecord → M ExportRunRecord
unfolding batch_of is_coherent abandon
reconcile_replayed_run workspace_id batch_id run = do
  lift (guard (run.batch_id == batch_id) export_idempotency_conflict)
  if not (run_status_eq run.status in_progress) then pure run else (do
    batch ← batch_of workspace_id batch_id
    t ← now
    if is_coherent batch run && ltb t (run.updated_at + abandoned_run_after)
        then pure run
        else abandon batch run t)

unfoldable pub get_documents : List ℕ → M (List DocumentRecord)
unfolding get_document
get_documents [] = pure []
get_documents (id ∷ ids) = do
  document ← get_document id
  rest ← get_documents ids
  pure (document ∷ rest)

unfoldable pub documents_for_execution :
    ExportSetup → SecurityContext → ExportBatchRecord → M (List DocumentRecord)
unfolding checks_pass get_documents
documents_for_execution setup context batch = do
  lift (
      guard
        (batch_status_eq batch.status ExportBatchStatus.ready
          || batch_status_eq batch.status ExportBatchStatus.failed)
        export_eligibility)
  passed ← read (λ t. checks_pass t context.workspace_id batch setup.destinations)
  lift (guard passed export_eligibility)
  get_documents batch.document_ids

unfoldable pub max_attempts : List ExportRunRecord → ℕ
max_attempts [] = 0
max_attempts (r ∷ rs) = max r.attempt_count (max_attempts rs)

unfoldable pub next_attempt : String → ℕ → M ℕ
unfolding runs_of max_attempts
next_attempt workspace_id batch_id = do
  runs ← runs_of workspace_id
  pure (suc (max_attempts (select (λ r. r.batch_id == batch_id) runs)))

-- `ExportRunRecord(...)`
unfoldable pub new_run : SecurityContext → ExportBatchRecord → String → ℕ → ℕ → ℕ → ExportRunRecord
new_run context batch key attempt id at = record {
  workspace_id = context.workspace_id;
  batch_id = batch.id;
  document_ids = batch.document_ids;
  idempotency_key = key;
  destination = batch.destination;
  export_format = batch.export_format;
  actor = context.actor;
  status = in_progress;
  attempt_count = attempt;
  file_name = none;
  artifact_content = none;
  error_code = none;
  error_message = none;
  retryable = false;
  id = id;
  created_at = at;
  completed_at = none;
  updated_at = at;
}

unfoldable pub claim_batch :
    SecurityContext
    → ℕ
    → ExportBatchRecord
    → List DocumentRecord
    → ℕ
    → ExportRunRecord
    → ExportRunRecord × Bool
    → M Reserved
unfolding reconcile_replayed_run save_batch
claim_batch context batch_id batch documents at run (reserved, false) = do
  replay ← reconcile_replayed_run context.workspace_id batch_id reserved
  pure (replayed replay)
claim_batch context batch_id batch documents at run (reserved, true) = do
  save_batch (record batch {
    status = ExportBatchStatus.running;
    last_run_id = some run.id;
    updated_at = at;
  })
  pure (fresh (record { batch = batch; run = run; documents = documents; started_at = at }))

unfoldable pub reserve_new : ExportSetup → SecurityContext → ℕ → String → M Reserved
unfolding batch_of documents_for_execution next_attempt new_run reserve_run claim_batch
reserve_new setup context batch_id key = do
  batch ← batch_of context.workspace_id batch_id
  documents ← documents_for_execution setup context batch
  at ← now
  attempt ← next_attempt context.workspace_id batch.id
  id ← new_uuid
  let run = new_run context batch key attempt id at
  outcome ← reserve_run run
  claim_batch context batch_id batch documents at run outcome

unfoldable pub reserve_or_replay :
    ExportSetup → SecurityContext → ℕ → String → Option ExportRunRecord → M Reserved
unfolding reserve_new reconcile_replayed_run
reserve_or_replay setup context batch_id key none = reserve_new setup context batch_id key
reserve_or_replay setup context batch_id key (some existing) = do
  replay ← reconcile_replayed_run context.workspace_id batch_id existing
  pure (replayed replay)

unfoldable pub reserve : ExportSetup → SecurityContext → ℕ → String → M Reserved
unfolding transaction get_run_by_key reserve_or_replay
reserve setup context batch_id key = transaction (do
  existing ← get_run_by_key context.workspace_id key
  reserve_or_replay setup context batch_id key existing)
