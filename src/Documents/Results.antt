-- ===== src/Documents/Results.antt =====
-- `ProcessingResultRecorder` of backend/app/documents/processing_results.py. Operation logs are not
-- modelled: nothing reads them back.
pub mod LostLease
pub mod LostFailure
use Prim.Native.String.{◌++◌ as str_append}
use ai_document_ops_system.Prelude.{
  ℕ, Bool, not, Option, none, some, String, List, [], ◌∷◌, map, any, select, str_eq, is_empty,
  if◌then◌else◌,
}
use ai_document_ops_system.Core.Errors.{Error, Result, ok, err}
use ai_document_ops_system.Core.Security.{SecurityContext}
use ai_document_ops_system.Documents.Status.{DocumentStatus, status_eq}
use ai_document_ops_system.Documents.Models.{DocumentRecord}
use ai_document_ops_system.Documents.JobModel.{ProcessingJob}
use ai_document_ops_system.Documents.Jobs
use ai_document_ops_system.Documents.JobStore
use ai_document_ops_system.Documents.Pipeline.{Extracted}
use ai_document_ops_system.Documents.Repositories.{add_audit, save_document, save_extraction}
use ai_document_ops_system.Documents.RetryPolicy.{
  RetryPolicy, error_code, is_retryable, should_retry, next_attempt_at,
}
use ai_document_ops_system.Documents.Workflow.{new_event, transition}
use ai_document_ops_system.Invoice.Validation.{
  IssueCode, missing_critical_field, invalid_total, total_mismatch, invalid_date_order,
  unsupported_currency, line_item_amount_mismatch, duplicate_invoice, potential_prompt_injection,
  missing_field_evidence, ValidationIssue, ValidationReport, has_errors,
}
use ai_document_ops_system.Runtime.{M, World, pure, transaction, ◌>>=◌, ◌>>◌}

unfoldable pub code_text : IssueCode → String
code_text missing_critical_field = "missing_critical_field"
code_text invalid_total = "invalid_total"
code_text total_mismatch = "total_mismatch"
code_text invalid_date_order = "invalid_date_order"
code_text unsupported_currency = "unsupported_currency"
code_text line_item_amount_mismatch = "line_item_amount_mismatch"
code_text duplicate_invoice = "duplicate_invoice"
code_text potential_prompt_injection = "potential_prompt_injection"
code_text missing_field_evidence = "missing_field_evidence"

-- The codes in the order of their texts.
abbrev sorted_codes : List IssueCode
sorted_codes =
    duplicate_invoice ∷ invalid_date_order ∷ invalid_total ∷ line_item_amount_mismatch
    ∷ missing_critical_field ∷ missing_field_evidence ∷ potential_prompt_injection ∷ total_mismatch
    ∷ unsupported_currency ∷ []

-- `",".join(texts)`
unfoldable pub join : List String → String
join [] = ""
join (t ∷ []) = t
join (t ∷ u ∷ ts) = str_append t (str_append "," (join (u ∷ ts)))

-- `"codes=" + ",".join(sorted({issue.code for issue in security_issues}))`
unfoldable pub codes_summary : List ValidationIssue → String
unfolding code_text join
codes_summary issues = str_append "codes=" (
    join (
      map code_text (
        select (λ c. any (λ issue. str_eq (code_text issue.code) (code_text c)) issues)
          sorted_codes)))

unfoldable pub flag_untrusted :
    DocumentRecord → SecurityContext → List ValidationIssue → M (Unit {0})
unfolding new_event add_audit codes_summary
flag_untrusted document context issues = if is_empty issues then pure tt else do
  event ←
      new_event document.id "untrusted_content_flagged" context.actor (some document.status)
        (some document.status) (some (codes_summary issues))
  add_audit event
  pure tt

abbrev review_summary : ValidationReport → String
review_summary report =
    if has_errors report
    then "Validation requires reviewer correction."
    else "Invoice is ready for reviewer approval."

unfoldable pub record_success :
    DocumentRecord → ProcessingJob → SecurityContext → Extracted → ℕ → M DocumentRecord
unfolding transaction flag_untrusted save_extraction transition Jobs.succeed JobStore.save
record_success document job context e lease_token = transaction (do
  flag_untrusted document context e.security_issues
  save_extraction document.id e.result e.report
  extracted ← transition document DocumentStatus.extracted context.actor none
  reviewed ←
      transition extracted DocumentStatus.needs_review context.actor
        (some (review_summary e.report))
  done ← Jobs.succeed (record job {
    provider_name = some e.result.provider_name;
    provider_trace_id = e.result.provider_trace_id;
  })
  JobStore.save (some lease_token) done
  pure reviewed)

-- The branch of `record_failure` that schedules another attempt.
unfoldable pub retry_later :
    RetryPolicy
    → DocumentRecord
    → ProcessingJob
    → SecurityContext
    → String
    → M (DocumentRecord × ProcessingJob)
unfolding next_attempt_at Jobs.retry transition
retry_later policy document job context code = do
  at ← next_attempt_at policy job
  retried ← Jobs.retry code (some at) job
  queued ←
      transition (record document { error_message = some code }) DocumentStatus.queued context.actor
        (some code)
  pure (queued, retried)

-- The branch that gives the job up.
unfoldable pub give_up :
    DocumentRecord → ProcessingJob → SecurityContext → Error → M (DocumentRecord × ProcessingJob)
unfolding Jobs.dead_letter_job Jobs.fail transition save_document error_code is_retryable
give_up document job context error = do
  let code = error_code error
  ended ← if is_retryable error then Jobs.dead_letter_job code job else Jobs.fail code job
  let marked = record document { error_message = ended.error_message }
  failed ←
      if not (status_eq document.status DocumentStatus.failed)
      then transition marked DocumentStatus.failed context.actor none
      else save_document marked
  pure (failed, ended)

unfoldable pub record_failure :
    RetryPolicy → DocumentRecord → ProcessingJob → SecurityContext → Error → ℕ → M DocumentRecord
unfolding transaction retry_later give_up should_retry JobStore.save error_code
record_failure policy document job context error lease_token = transaction (do
  (changed, ended) ←
      if should_retry policy error job
      then retry_later policy document job context (error_code error)
      else give_up document job context error
  JobStore.save (some lease_token) ended
  pure changed)
