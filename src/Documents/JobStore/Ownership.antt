-- ===== src/Documents/JobStore/Ownership.antt =====
-- Who may write a job: the holder of the lease under which the stored job runs.
use ai_document_ops_system.Prelude.{
  ℕ, ◌+◌, ◌<◌, Option, none, some, true, false, ◌&&◌, ◌≡◌, ◌≢◌, ◌↔◌, ◌⊎◌, inl, inr, refl, arith,
  opt_eq, is_some, Bool-cases,
}
use ai_document_ops_system.Prelude.Dict.{lookup, insert}
use ai_document_ops_system.Core.Errors.{ok, err, lease_lost}
use ai_document_ops_system.Documents.JobModel.{ProcessingJob, running}
use ai_document_ops_system.Documents.JobStore.{
  is_running, save, check_lease, set_jobs, is_processable, take_lease, claim_processable,
}
use ai_document_ops_system.Runtime.{World}

-- A write that names a token needs a stored job that carries it. A write that names none must not
-- touch a job that runs under a lease, unless it leaves the job running under that lease.
abbrev pub MayWrite : Option ℕ → ProcessingJob → Option ProcessingJob → Type 0
MayWrite (some token) job none = ⊥
MayWrite (some token) job (some current) = current.lease_token ≡ some token
MayWrite none job none = Unit
MayWrite none job (some current) =
    (is_running current && is_some current.lease_token ≡ false)
    ⊎ ((is_running job ≡ true) × (job.lease_token ≡ current.lease_token))

opt_eq_iff : (a b : Option ℕ) → (opt_eq a b ≡ true) ↔ (a ≡ b)
opt_eq_iff a b = ground arith

check_iff :
    (expected : Option ℕ) (job : ProcessingJob) (current : Option ProcessingJob)
    → (check_lease expected job current ≡ ok tt) ↔ MayWrite expected job current
unfolding check_lease
check_iff (some token) job none = ground arith
check_iff (some token) job (some c) = ground (arith, opt_eq_iff c.lease_token (some token))
check_iff none job none = ground arith
check_iff none job (some c) =
    ground (arith, opt_eq_iff job.lease_token c.lease_token, opt_eq_iff c.lease_token c.lease_token)

-- A write by the lease's owner stores the job, and touches nothing else.
owner_saves :
    (expected : Option ℕ) (job : ProcessingJob) (w : World)
    → MayWrite expected job (lookup job.id w.tables.jobs)
    → save expected job w
      ≡ (ok job, record w { tables = set_jobs (insert job.id job w.tables.jobs) w.tables })
unfolding save
owner_saves expected job w h = rw ((check_iff expected job (lookup job.id w.tables.jobs)).1 h) refl

refused_raises :
    (expected : Option ℕ) (job : ProcessingJob) (current : Option ProcessingJob)
    → ¬ MayWrite expected job current
    → check_lease expected job current ≡ err lease_lost
unfolding check_lease
refused_raises (some token) job none n = ground arith
refused_raises (some token) job (some c) n = ground (arith, opt_eq_iff c.lease_token (some token))
refused_raises none job none n = absurd (n tt)
refused_raises none job (some c) n =
    ground (arith, opt_eq_iff job.lease_token c.lease_token, opt_eq_iff c.lease_token c.lease_token)

-- A write by anyone but the lease's owner raises and changes nothing.
other_refused :
    (expected : Option ℕ) (job : ProcessingJob) (w : World)
    → ¬ MayWrite expected job (lookup job.id w.tables.jobs)
    → save expected job w ≡ (err lease_lost, w)
unfolding save
other_refused expected job w n =
    rw (refused_raises expected job (lookup job.id w.tables.jobs) n) refl

-- What a claim makes of a job.
pub record Claimed (before after : ProcessingJob) (token at : ℕ) : Type 0 where
  pub same_job : (after.id ≡ before.id) × (after.document_id ≡ before.document_id)
  pub now_running : after.status ≡ running
  pub leased : after.lease_token ≡ some token
  pub counted : after.attempt_count ≡ before.attempt_count + 1
  pub not_scheduled : (after.next_attempt_at ≡ none) × (after.finished_at ≡ none)
  pub stamped : after.updated_at ≡ at

take_lease_lem :
    (job : ProcessingJob) (w : World)
    → (after : ProcessingJob) × (at : ℕ) × ((take_lease job w).0 ≡ ok after)
      × ((take_lease job w).1.tables ≡ set_jobs (insert job.id after w.tables.jobs) w.tables)
      × Claimed job after (w.uuid w.drawn) at
unfolding take_lease
take_lease_lem job w = elim (Bool-cases (is_running job)) [
  | inl held ↦ rw held (
    _,
    _,
    refl,
    refl,
    record {
      same_job = (refl, refl);
      now_running = refl;
      leased = refl;
      counted = refl;
      not_scheduled = (refl, refl);
      stamped = refl;
    },
  )
  | inr free ↦ rw free (
    _,
    _,
    refl,
    refl,
    record {
      same_job = (refl, refl);
      now_running = refl;
      leased = refl;
      counted = refl;
      not_scheduled = (refl, refl);
      stamped = refl;
    },
  )
]

-- A stored job that may be claimed is started under the next UUID as its lease, with one attempt
-- more and no time for a next one, and is stored and returned so.
pub claim_taken :
    (stale_before : Option ℕ) (current : ℕ) (id : ℕ) (job : ProcessingJob) (w : World)
    → lookup id w.tables.jobs ≡ some job
    → is_processable stale_before current job ≡ true
    → (after : ProcessingJob) × (at : ℕ) × ((claim_processable id stale_before current w).0
        ≡ ok (some after))
      × ((claim_processable id stale_before current w).1.tables
          ≡ set_jobs (insert job.id after w.tables.jobs) w.tables)
      × Claimed job after (w.uuid w.drawn) at
unfolding claim_processable
claim_taken stale_before current id job w found p =
    let (after, at, returned, stored, claimed) = take_lease_lem job w in
    (after, at, rw (found, p, returned) refl, rw (found, p, returned) stored, claimed)

-- A job that was claimed at a time later than `stale_before` cannot be claimed again: its lease is
-- not stale.
pub claimed_once :
    (before after : ProcessingJob) (token at stale_before current : ℕ)
    → Claimed before after token at
    → stale_before < at
    → is_processable (some stale_before) current after ≡ false
unfolding is_processable
claimed_once before after token at stale_before current c h = ground arith

-- Where the stored job is one that was claimed under a new token, a write under another token
-- raises and changes nothing.
pub superseded_refused :
    (before after job : ProcessingJob) (token at old : ℕ) (w : World)
    → Claimed before after token at
    → lookup job.id w.tables.jobs ≡ some after
    → old ≢ token
    → save (some old) job w ≡ (err lease_lost, w)
superseded_refused before after job token at old w c found n =
    other_refused (some old) job w (rw found (λ same. n (cc c.leased)))
