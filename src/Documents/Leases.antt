-- ===== src/Documents/Leases.antt =====
-- backend/app/documents/job_leases.py
use ai_document_ops_system.Prelude.{
  ℕ, Bool, not, ◌&&◌, ◌||◌, Option, none, opt_eq, is_some, if◌then◌else◌,
}
use ai_document_ops_system.Core.Errors.{
  Result, guard, lease_lost, invalid_status_transition, require_some,
}
use ai_document_ops_system.Documents.JobModel.{
  ProcessingJob, queued, running, retrying, job_status_eq,
}
use ai_document_ops_system.Documents.Jobs.{start}
use ai_document_ops_system.Documents.JobStore.{is_running, get, save}
use ai_document_ops_system.Runtime.{M, pure, lift, transaction, ◌>>=◌, ◌>>◌}

unfoldable pub is_open : ProcessingJob → Bool
is_open job =
    job_status_eq job.status queued
    || job_status_eq job.status retrying
    || job_status_eq job.status running

unfoldable pub require_processable_status : ProcessingJob → Result (Unit {0})
unfolding is_open
require_processable_status job = guard (is_open job) invalid_status_transition

-- The start of a job that no worker claimed, read again inside the transaction.
unfoldable pub start_unclaimed : ProcessingJob → M ProcessingJob
unfolding transaction get start save
start_unclaimed job = transaction (do
  fresh ← get job.id
  lift (guard (not (is_running fresh)) lease_lost)
  started ← start none fresh
  save none started)

unfoldable pub with_lease : ProcessingJob → Option ℕ → M (ProcessingJob × ℕ)
with_lease job token = do held ← lift (require_some token lease_lost); pure (job, held)

unfoldable pub acquire : ProcessingJob → Option ℕ → M (ProcessingJob × ℕ)
unfolding require_processable_status start_unclaimed with_lease
acquire job claimed = do
  lift (require_processable_status job)
  if is_running job
      then (do
        lift (guard (is_some claimed && opt_eq job.lease_token claimed) lease_lost)
        with_lease job claimed)
      else (do started ← start_unclaimed job; with_lease started started.lease_token)
