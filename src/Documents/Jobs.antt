-- ===== src/Documents/Jobs.antt =====
-- The methods of `ProcessingJob` in backend/app/documents/jobs.py. A method that changes the job
-- returns the new one.
pub mod Validity
use ai_document_ops_system.Prelude.{
  ℕ, suc, ◌+◌, leb, Bool, Option, none, some, String, if◌then◌else◌,
}
use ai_document_ops_system.Documents.JobModel.{
  ProcessingJob, ProcessingJobStatus, queued, running, retrying, succeeded, failed, dead_letter,
  cancelled,
}
use ai_document_ops_system.Runtime.{M, World, pure, now, new_uuid, ◌>>=◌, ◌>>◌}
use ai_document_ops_system.Core.Errors.{ok}

-- `_monotonic_timestamp` given the reading of the clock: later than every one before.
unfoldable pub after_last : Option ℕ → ℕ → ℕ
after_last none current = current
after_last (some last) current = if leb current last then last + 1 else current

unfoldable pub monotonic_timestamp : M ℕ
unfolding after_last
monotonic_timestamp w =
    let stamp = after_last w.last_timestamp (w.clock w.ticks) in
    (ok stamp, record w { last_timestamp = some stamp; ticks = suc w.ticks })

-- `ProcessingJob(document_id=document_id)`
unfoldable pub new_job : ℕ → M ProcessingJob
unfolding monotonic_timestamp
new_job document_id = do
  id ← new_uuid
  created_at ← monotonic_timestamp
  updated_at ← monotonic_timestamp
  pure (record {
    document_id = document_id;
    id = id;
    status = queued;
    attempt_count = 0;
    started_at = none;
    finished_at = none;
    error_message = none;
    provider_name = none;
    provider_trace_id = none;
    next_attempt_at = none;
    lease_token = none;
    created_at = created_at;
    updated_at = updated_at;
  })

-- `lease_token or uuid4().hex`
unfoldable pub token_or_new : Option ℕ → M ℕ
token_or_new (some token) = pure token
token_or_new none = new_uuid

unfoldable pub start : Option ℕ → ProcessingJob → M ProcessingJob
unfolding token_or_new
start lease_token job = do
  started ← now
  token ← token_or_new lease_token
  pure (record job {
    status = running;
    attempt_count = job.attempt_count + 1;
    started_at = some started;
    finished_at = none;
    next_attempt_at = none;
    lease_token = some token;
    updated_at = started;
  })

-- The common part of the five methods that end a lease.
abbrev ended :
    ProcessingJobStatus → Option String → Option ℕ → Option ℕ → ℕ → ProcessingJob → ProcessingJob
ended status message finished next updated job = record job {
  status = status;
  error_message = message;
  finished_at = finished;
  next_attempt_at = next;
  lease_token = none;
  updated_at = updated;
}

unfoldable pub succeed : ProcessingJob → M ProcessingJob
succeed job = do t ← now; pure (ended succeeded none (some t) none t job)

unfoldable pub fail : String → ProcessingJob → M ProcessingJob
fail message job = do t ← now; pure (ended failed (some message) (some t) none t job)

unfoldable pub retry : String → Option ℕ → ProcessingJob → M ProcessingJob
retry message next_attempt_at job = do
  t ← now
  pure (ended retrying (some message) none next_attempt_at t job)

unfoldable pub dead_letter_job : String → ProcessingJob → M ProcessingJob
dead_letter_job message job = do
  t ← now
  pure (ended dead_letter (some message) (some t) none t job)

unfoldable pub cancel : ProcessingJob → M ProcessingJob
cancel job = do t ← now; pure (ended cancelled none (some t) none t job)
