-- ===== src/Documents/Results/LostFailure.antt =====
-- The failures that a worker records (backend/app/documents/processing_results.py) after it lost the
-- lease of its job.
use ai_document_ops_system.Prelude.{
  ℕ, Bool, String, Option, some, true, false, ◌≡◌, subst, if◌then◌else◌,
}
use ai_document_ops_system.Prelude.Dict.{lookup}
use ai_document_ops_system.Core.Errors.{Error, is_ok}
use ai_document_ops_system.Core.Security.{SecurityContext}
use ai_document_ops_system.Documents.JobModel.{ProcessingJob}
use ai_document_ops_system.Documents.Jobs
use ai_document_ops_system.Documents.JobStore
use ai_document_ops_system.Documents.JobStore.{lease_differs}
use ai_document_ops_system.Documents.Models.{DocumentRecord}
use ai_document_ops_system.Documents.Results.{record_failure, retry_later, give_up}
use ai_document_ops_system.Documents.Results.LostLease.{
  IsLost, Keeps-transition, Keeps-save_document, Fails-save,
}
use ai_document_ops_system.Documents.RetryPolicy.{
  RetryPolicy, next_attempt_at, is_retryable, error_code, should_retry,
}
use ai_document_ops_system.Runtime.{World, M, ◌>>=◌}
use ai_document_ops_system.Runtime.Effects.{Atomic, Atomic-transaction}
use ai_document_ops_system.Runtime.Keeps.{
  Keeps, Keeps-if, Fails, keeps_rules, Fails-first, Fails-bind_known, Fails-transaction,
}
use ai_document_ops_system.Runtime.Yields.{Yields, Yields-pure, Yields-if, Yields-last, Yields-bind}

-- The calls of the two branches of `record_failure` keep the job in its place, and the job that they
-- return is the one they were given.
abbrev SameJob : ProcessingJob → DocumentRecord × ProcessingJob → Type 0
SameJob job x = x.1.id ≡ job.id

abbrev SameId : ProcessingJob → ProcessingJob → Type 0
SameId job x = x.id ≡ job.id

retry-SameId :
    (code : String) (at : Option ℕ) (job : ProcessingJob)
    → Yields (SameId job) (Jobs.retry code at job)
unfolding Jobs.retry
retry-SameId code at job = search (Yields-last, Yields-pure) depth 8

after_retry :
    {B : Type 0} {Q : B → Type 0} (code : String) (job : ProcessingJob) (at : Option ℕ)
    (f : ProcessingJob → M B)
    → ((x : ProcessingJob) → SameId job x → Yields Q (f x))
    → Yields Q (Jobs.retry code at job >>= f)
after_retry code job at f k = Yields-bind f _ (retry-SameId code at job) k

end_job-SameId :
    (b : Bool) (code : String) (job : ProcessingJob)
    → Yields (SameId job) (if b then Jobs.dead_letter_job code job else Jobs.fail code job)
unfolding Jobs.dead_letter_job Jobs.fail
end_job-SameId b code job = search (Yields-if, Yields-last, Yields-pure) depth 8

Keeps-end_job :
    (id token : ℕ) (b : Bool) (code : String) (job : ProcessingJob)
    → Keeps (IsLost id token) (if b then Jobs.dead_letter_job code job else Jobs.fail code job)
unfolding Jobs.dead_letter_job Jobs.fail
Keeps-end_job id token b code job = search keeps_rules depth 12

Keeps-retry :
    (id token : ℕ) (code : String) (at : Option ℕ) (job : ProcessingJob)
    → Keeps (IsLost id token) (Jobs.retry code at job)
unfolding Jobs.retry
Keeps-retry id token code at job = search keeps_rules depth 12

module _ (token : ℕ) (d : DocumentRecord) (job : ProcessingJob) (c : SecurityContext) where
  Keeps-retry_later :
      (policy : RetryPolicy) (code : String)
      → Keeps (IsLost job.id token) (retry_later policy d job c code)
  unfolding retry_later next_attempt_at
  Keeps-retry_later policy code = search (keeps_rules, Keeps-retry, Keeps-transition) depth 12

  retry_later-SameJob :
      (policy : RetryPolicy) (code : String)
      → Yields (SameJob job) (retry_later policy d job c code)
  unfolding retry_later
  retry_later-SameJob policy code =
      search (Yields-last, Yields-pure, after_retry {Q = SameJob job} code job) depth 12

  Keeps-give_up : (e : Error) → Keeps (IsLost job.id token) (give_up d job c e)
  unfolding give_up
  Keeps-give_up e =
      search (keeps_rules, Keeps-end_job, Keeps-transition, Keeps-save_document) depth 14

  give_up-SameJob : (e : Error) → Yields (SameJob job) (give_up d job c e)
  unfolding give_up
  give_up-SameJob e =
      Yields-bind _ _ (end_job-SameId (is_retryable e) (error_code e) job)
        (λ x h. search (Yields-last, Yields-pure, h) depth 8)

  Fails-record_failure :
      (policy : RetryPolicy) (e : Error)
      → Fails (IsLost job.id token) (record_failure policy d job c e token)
  unfolding record_failure
  Fails-record_failure policy e = Fails-transaction (
      Fails-bind_known _ _
        (Keeps-if (should_retry policy e job) _ _ (Keeps-retry_later policy (error_code e))
          (Keeps-give_up e))
        (Yields-if (should_retry policy e job) _ _ (retry_later-SameJob policy (error_code e))
          (give_up-SameJob e))
        (λ x h. Fails-first _ _ (
          subst (λ id. Fails (IsLost id token) (JobStore.save (some token) x.1)) h
            (Fails-save token x.1))))

  Atomic-record_failure :
      (policy : RetryPolicy) (e : Error) → Atomic (record_failure policy d job c e token)
  unfolding record_failure
  Atomic-record_failure policy e = Atomic-transaction _

-- Over a store that rolls back, a run whose token is no longer that of the stored job fails to
-- record its failure and leaves every table as it was.
pub lost_lease-record_failure :
    (policy : RetryPolicy) (d : DocumentRecord) (job : ProcessingJob) (c : SecurityContext)
    (e : Error) (token : ℕ) (w : World)
    → w.rollback ≡ true
    → lease_differs (lookup job.id w.tables.jobs) (some token) ≡ true
    → (is_ok (record_failure policy d job c e token w).0 ≡ false)
      × ((record_failure policy d job c e token w).1.tables ≡ w.tables)
lost_lease-record_failure policy d job c e token w b h =
    let failed = (Fails-record_failure token d job c policy e).fails w (record { differs = h }) in
    (failed, (Atomic-record_failure token d job c policy e).undone w b failed)
