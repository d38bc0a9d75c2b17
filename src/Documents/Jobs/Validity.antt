-- ===== src/Documents/Jobs/Validity.antt =====
-- The well-formedness of a processing job, and the order of its timestamps.
use ai_document_ops_system.Prelude.{
  ℕ, ◌<◌, true, Option, none, some, is_some, is_none, String, ◌≡◌, refl, arith, ◌||◌,
}
use ai_document_ops_system.Documents.JobModel.{
  ProcessingJob, queued, running, retrying, job_status_eq,
}
use ai_document_ops_system.Documents.Jobs.{
  after_last, monotonic_timestamp, new_job, start, succeed, fail, retry, dead_letter_job, cancel,
  token_or_new,
}
use ai_document_ops_system.Runtime.{World, pure, ◌>>=◌}
use ai_document_ops_system.Runtime.Yields.{Returned}

-- A job is running exactly when it carries a lease, it is finished exactly when it has ended, and
-- only a waiting job has a time for its next attempt.
pub record IsValid (job : ProcessingJob) : Type 0 where
  pub leased : is_some job.lease_token ≡ job_status_eq job.status running
  pub finished : is_none job.finished_at ≡ (
      job_status_eq job.status queued
      || job_status_eq job.status running
      || job_status_eq job.status retrying)
  pub scheduled : (is_none job.next_attempt_at || job_status_eq job.status retrying) ≡ true

start-IsValid :
    (token : Option ℕ) (job : ProcessingJob) (w : World) → Returned IsValid (start token job w).0
unfolding Returned start token_or_new
start-IsValid (some t) job w = record { leased = refl; finished = refl; scheduled = refl }
start-IsValid none job w = record { leased = refl; finished = refl; scheduled = refl }

-- Whatever a job was before, each of the six methods that change it returns a valid job, and so
-- does the creation of one.
pub methods-IsValid :
    (document_id : ℕ) (token next : Option ℕ) (message : String) (job : ProcessingJob) (w : World)
    → Returned IsValid (new_job document_id w).0
      × Returned IsValid (start token job w).0
      × Returned IsValid (succeed job w).0
      × Returned IsValid (fail message job w).0
      × Returned IsValid (retry message next job w).0
      × Returned IsValid (dead_letter_job message job w).0
      × Returned IsValid (cancel job w).0
unfolding Returned new_job succeed fail retry dead_letter_job cancel
methods-IsValid document_id token next message job w = (
  record { leased = refl; finished = refl; scheduled = refl },
  start-IsValid token job w,
  record { leased = refl; finished = refl; scheduled = refl },
  record { leased = refl; finished = refl; scheduled = refl },
  record { leased = refl; finished = refl; scheduled = ground arith },
  record { leased = refl; finished = refl; scheduled = refl },
  record { leased = refl; finished = refl; scheduled = refl },
)

-- Two stamps taken one after the other are different and in their order, whatever the clock shows,
-- even where it stands still or goes back.
stamps_increase :
    (w : World)
    → Returned
        (λ (pair : ℕ × ℕ). pair.0 < pair.1)
        ((do a ← monotonic_timestamp; b ← monotonic_timestamp; pure (a, b)) w).0
unfolding Returned monotonic_timestamp after_last
stamps_increase w = ground arith
