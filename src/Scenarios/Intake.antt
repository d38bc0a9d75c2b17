-- ===== src/Scenarios/Intake.antt =====
-- Intake, the queue and its workers.
use ai_document_ops_system.Prelude.{
  ℕ, ◌*◌, ◌≤◌, max, ◌≡◌, refl, String, Option, none, some, List, [], ◌∷◌, true, false, arith,
}
use ai_document_ops_system.Prelude.Dict.{lookup, insert}
use ai_document_ops_system.Core.Errors.{ok, is_ok, provider_error}
use ai_document_ops_system.Documents.JobModel.{ProcessingJob}
use ai_document_ops_system.Documents.JobStore.{
  claim_processable, is_processable, set_jobs, lease_differs,
}
use ai_document_ops_system.Documents.JobStore.Ownership.{Claimed, claim_taken}
use ai_document_ops_system.Documents.Jobs.{
  new_job, start, succeed, fail, retry, dead_letter_job, monotonic_timestamp,
}
use ai_document_ops_system.Documents.Jobs
use ai_document_ops_system.Documents.Jobs.Validity.{IsValid, methods-IsValid}
use ai_document_ops_system.Documents.Pipeline.{Extracted}
use ai_document_ops_system.Documents.Processing.{process_job}
use ai_document_ops_system.Documents.Processing.Outcome.{processed_state}
use ai_document_ops_system.Documents.Results.{record_success, record_failure}
use ai_document_ops_system.Documents.Results.LostFailure.{lost_lease-record_failure}
use ai_document_ops_system.Documents.Results.LostLease.{lost_lease-record_success}
use ai_document_ops_system.Documents.RetryPolicy.{new_policy, jittered_delay}
use ai_document_ops_system.Documents.RetryPolicy.Bounds.{jittered_delay-bounds}
use ai_document_ops_system.Documents.Status.{DocumentStatus, status_in, can_transition}
use ai_document_ops_system.Documents.Status.Paths.{Lifecycle, here, step, exported_after_approved}
use ai_document_ops_system.Runtime.Yields.{Returned}
use ai_document_ops_system.Scenarios.Data.{
  world, tables, job, held_job, document, extraction_result, admin_context, policy, providers,
  plain,
}

abbrev hex : ℕ → String
hex n = "0"

claim_taken_example :
    (after : ProcessingJob) × (at : ℕ) × ((claim_processable 30 none 20 world).0 ≡ ok (some after))
    × ((claim_processable 30 none 20 world).1.tables
        ≡ set_jobs (insert 30 after tables.jobs) tables)
    × Claimed job after 1_000 at
unfolding is_processable lookup
claim_taken_example = claim_taken none 20 30 job world refl refl

differ : (a b : Option ℕ) → a ≡ some 77 → b ≡ some 78 → ¬ (a ≡ b)
differ a b e f h = ground (arith, h, e, f)

lost_lease-record_success_example :
    (is_ok
        (record_success
          (document 4 DocumentStatus.processing)
          held_job
          admin_context
          (record {
            result = extraction_result;
            report = record { issues = [] };
            security_issues = [];
          })
          78
          world).0
      ≡ false)
    × ((record_success
          (document 4 DocumentStatus.processing)
          held_job
          admin_context
          (record {
            result = extraction_result;
            report = record { issues = [] };
            security_issues = [];
          })
          78
          world).1.tables
        ≡ tables)
unfolding lease_differs lookup
lost_lease-record_success_example =
    lost_lease-record_success (document 4 DocumentStatus.processing) held_job admin_context
      (record { result = extraction_result; report = record { issues = [] }; security_issues = [] })
      78 world refl refl

lost_lease-record_failure_example :
    (is_ok
        (record_failure policy
          (document 4 DocumentStatus.processing)
          held_job
          admin_context
          (provider_error "timeout" "mock" true)
          78
          world).0
      ≡ false)
    × ((record_failure policy
          (document 4 DocumentStatus.processing)
          held_job
          admin_context
          (provider_error "timeout" "mock" true)
          78
          world).1.tables
        ≡ tables)
unfolding lease_differs lookup
lost_lease-record_failure_example =
    lost_lease-record_failure policy (document 4 DocumentStatus.processing) held_job admin_context
      (provider_error "timeout" "mock" true) 78 world refl refl

methods-IsValid_example :
    Returned IsValid (new_job 3 world).0
    × Returned IsValid (start none job world).0
    × Returned IsValid (succeed job world).0
    × Returned IsValid (fail "x" job world).0
    × Returned IsValid (retry "x" (some 8) job world).0
    × Returned IsValid (dead_letter_job "x" job world).0
    × Returned IsValid (Jobs.cancel job world).0
methods-IsValid_example = methods-IsValid 3 none (some 8) "x" job world

processed_state_example :
    status_in DocumentStatus.failed
      (DocumentStatus.needs_review ∷ DocumentStatus.queued ∷ DocumentStatus.failed ∷ [])
    ≡ true
unfolding process_job lookup ai_document_ops_system.Documents.Pipeline.extract insert
processed_state_example =
    processed_state ⦃u = plain⦄ providers policy 30 admin_context none world
      (record (document 3 DocumentStatus.failed) {
        updated_at = 14;
        error_message = some "provider_error:mock";
      })
      refl

jittered_delay-bounds_example :
    (1_000_000 ≤ jittered_delay (new_policy 3 5 300) job)
    × (jittered_delay (new_policy 3 5 300) job ≤ 1_100_000 * max (max 1 5) 300)
jittered_delay-bounds_example = jittered_delay-bounds 3 5 300 job

abbrev states : List DocumentStatus
states =
    DocumentStatus.uploaded ∷ DocumentStatus.queued ∷ DocumentStatus.processing
    ∷ DocumentStatus.extracted ∷ DocumentStatus.needs_review ∷ DocumentStatus.approved
    ∷ DocumentStatus.exported ∷ []

abbrev life : Lifecycle DocumentStatus.uploaded states DocumentStatus.exported
unfolding can_transition
life = step DocumentStatus.uploaded refl (
    step DocumentStatus.queued refl (
      step DocumentStatus.processing refl (
        step DocumentStatus.extracted refl (
          step DocumentStatus.needs_review refl
            (step DocumentStatus.approved refl (here DocumentStatus.exported))))))

exported_after_approved_example :
    (status_in DocumentStatus.extracted states ≡ true)
    × (status_in DocumentStatus.approved states ≡ true)
exported_after_approved_example = exported_after_approved life
