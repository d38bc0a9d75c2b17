-- ===== src/Documents/JobStore.antt =====
-- `InMemoryJobRepository` of backend/app/documents/repositories.py. A stored job is a copy, so a
-- change is visible only through the calls below; the two claims change the stored job itself.
pub mod Ownership
pub mod Takeover
use ai_document_ops_system.Prelude.{
  ℕ, ltb, leb, Bool, true, false, not, ◌&&◌, ◌||◌, Option, none, some, List, [], ◌∷◌, ◌==◌, opt_eq,
  is_some, select, length, if◌then◌else◌,
}
use ai_document_ops_system.Prelude.Dict.{Dict, lookup, insert, values}
use ai_document_ops_system.Core.Errors.{Result, ok, err, not_found, lease_lost, require_some}
use ai_document_ops_system.Documents.JobModel.{
  ProcessingJob, ProcessingJobStatus, queued, running, retrying, job_status_eq,
}
use ai_document_ops_system.Documents.Jobs.{start, retry}
use ai_document_ops_system.Runtime.{M, Tables, World, pure, lift, read, write, now, ◌>>=◌, ◌>>◌}

abbrev pub is_running : ProcessingJob → Bool
is_running job = job_status_eq job.status running

abbrev pub set_jobs : Dict ProcessingJob → Tables → Tables
set_jobs d t = record t { jobs = d }

abbrev pub put_job : ProcessingJob → M (Unit {0})
put_job job = write (λ t. set_jobs (insert job.id job t.jobs) t)

unfoldable pub add : ProcessingJob → M ProcessingJob
add job = do put_job job; pure job

-- The token that a write is held to: the caller's, or that of the lease under which the stored job
-- runs and which the written job must then carry itself.
unfoldable pub effective_token : Option ℕ → ProcessingJob → Option ProcessingJob → Result (Option ℕ)
effective_token (some token) job current = ok (some token)
effective_token none job none = ok none
effective_token none job (some current) =
    if is_running current && is_some current.lease_token
    then if is_running job && opt_eq job.lease_token current.lease_token
      then ok current.lease_token
      else err lease_lost
    else ok none

-- `current is None or current.lease_token != expected_lease_token`
unfoldable pub lease_differs : Option ProcessingJob → Option ℕ → Bool
lease_differs none expected = true
lease_differs (some current) expected = not (opt_eq current.lease_token expected)

unfoldable pub check_lease : Option ℕ → ProcessingJob → Option ProcessingJob → Result (Unit {0})
unfolding effective_token lease_differs
check_lease expected job current =
    let check = λ (token : Option ℕ).
      if is_some token && lease_differs current token then err lease_lost else ok tt in
    elim (effective_token expected job current) [ ok token ↦ check token | err e ↦ err e ]

unfoldable pub save : Option ℕ → ProcessingJob → M ProcessingJob
unfolding check_lease
save expected job = do
  current ← read (λ t. lookup job.id t.jobs)
  lift (check_lease expected job current)
  put_job job
  pure job

unfoldable pub get : ℕ → M ProcessingJob
get job_id = do found ← read (λ t. lookup job_id t.jobs); lift (require_some found not_found)

-- `max(matches, key=created_at)`: the first of the latest.
unfoldable pub latest : ProcessingJob → List ProcessingJob → ProcessingJob
latest best [] = best
latest best (job ∷ jobs) = latest (if ltb best.created_at job.created_at then job else best) jobs

unfoldable pub latest_of : List ProcessingJob → Option ProcessingJob
unfolding latest
latest_of [] = none
latest_of (job ∷ jobs) = some (latest job jobs)

unfoldable pub get_latest_for_document : ℕ → M ProcessingJob
unfolding latest_of
get_latest_for_document document_id = do
  jobs ← read (λ t. values t.jobs)
  lift (require_some (latest_of (select (λ job. job.document_id == document_id) jobs)) not_found)

unfoldable pub is_due : Option ℕ → ℕ → Bool
is_due none current = true
is_due (some next) current = leb next current

unfoldable pub is_stale : Option ℕ → ProcessingJob → Bool
is_stale none job = false
is_stale (some stale_before) job = is_running job && leb job.updated_at stale_before

-- The condition under which a worker may claim a job.
unfoldable pub is_processable : Option ℕ → ℕ → ProcessingJob → Bool
unfolding is_due is_stale
is_processable stale_before current job =
    job_status_eq job.status queued
    || (job_status_eq job.status retrying && is_due job.next_attempt_at current)
    || is_stale stale_before job

-- `(status != RUNNING, created_at)` of the first is below that of the second.
unfoldable pub precedes : ProcessingJob → ProcessingJob → Bool
precedes a b =
    (is_running a && not (is_running b))
    || (ltb a.created_at b.created_at && (is_running a || not (is_running b)))

-- `min(candidates, key=...)`: the first of the least.
unfoldable pub earliest : ProcessingJob → List ProcessingJob → ProcessingJob
unfolding precedes
earliest best [] = best
earliest best (job ∷ jobs) = earliest (if precedes job best then job else best) jobs

unfoldable pub earliest_of : List ProcessingJob → Option ProcessingJob
unfolding earliest
earliest_of [] = none
earliest_of (job ∷ jobs) = some (earliest job jobs)

-- A running job is first taken from the worker that let its lease expire.
unfoldable pub expire : ProcessingJob → M ProcessingJob
unfolding retry
expire job = if is_running job then retry "worker_lease_expired" none job else pure job

unfoldable pub take_lease : ProcessingJob → M ProcessingJob
unfolding expire start
take_lease job = do free ← expire job; started ← start none free; put_job started; pure started

unfoldable pub take_found : Option ProcessingJob → M (Option ProcessingJob)
take_found none = pure none
take_found (some job) = do started ← take_lease job; pure (some started)

-- `now or datetime.now(UTC)`: every caller of the modelled code gives `now`.
unfoldable pub claim_next_processable : Option ℕ → ℕ → M (Option ProcessingJob)
unfolding take_found earliest_of
claim_next_processable stale_before current = do
  jobs ← read (λ t. values t.jobs)
  take_found (earliest_of (select (is_processable stale_before current) jobs))

unfoldable pub claim_processable : ℕ → Option ℕ → ℕ → M (Option ProcessingJob)
unfolding get take_found
claim_processable job_id stale_before current = do
  job ← get job_id
  take_found (if is_processable stale_before current job then some job else none)

unfoldable pub holds_lease : ℕ → ProcessingJob → Bool
holds_lease lease_token job = is_running job && opt_eq job.lease_token (some lease_token)

unfoldable pub renew_found : ℕ → Option ProcessingJob → M Bool
unfolding holds_lease
renew_found lease_token none = pure false
renew_found lease_token (some job) =
    if holds_lease lease_token job
    then (do t ← now; put_job (record job { updated_at = t }); pure true)
    else pure false

unfoldable pub renew_lease : ℕ → ℕ → M Bool
unfolding renew_found
renew_lease job_id lease_token = do
  job ← read (λ t. lookup job_id t.jobs)
  renew_found lease_token job

unfoldable pub count : M ℕ
count = read (λ t. length t.jobs)
