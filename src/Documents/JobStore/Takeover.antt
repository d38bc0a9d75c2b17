-- ===== src/Documents/JobStore/Takeover.antt =====
-- Two claims of one job: the second is refused while the first holds, and ends the first where it
-- goes through.
use ai_document_ops_system.Prelude.{
  ℕ, ◌<◌, Option, none, some, ◌≡◌, ◌≢◌, refl, ◌∙◌, ap, subst, arith, Bool-cases, inl, inr,
}
use ai_document_ops_system.Prelude.Dict.{lookup, insert, lookup-insert_self}
use ai_document_ops_system.Core.Errors.{ok, err, lease_lost}
use ai_document_ops_system.Documents.JobModel.{ProcessingJob}
use ai_document_ops_system.Documents.JobStore.{get, save, is_processable, claim_processable}
use ai_document_ops_system.Documents.JobStore.Ownership.{
  Claimed, claim_taken, claimed_once, superseded_refused,
}
use ai_document_ops_system.Runtime.{World}

-- What a claim that returns `after` has done: `before` was stored, `after` is stored now.
record Done (id : ℕ) (before after : ProcessingJob) (w later : World) : Type 0 where
  pub at : ℕ
  pub claimed : Claimed before after (w.uuid w.drawn) at
  pub stored : lookup id later.tables.jobs ≡ some after

claim-Done :
    (id : ℕ) (stale_before : Option ℕ) (current : ℕ) (before after : ProcessingJob) (w : World)
    → lookup id w.tables.jobs ≡ some before
    → before.id ≡ id
    → (claim_processable id stale_before current w).0 ≡ ok (some after)
    → Done id before after w (claim_processable id stale_before current w).1
unfolding claim_processable get
claim-Done id stale_before current before after w found keyed h =
    elim (Bool-cases (is_processable stale_before current before)) [
      | inr not_now ↦ absurd (ground arith)
      | inl due ↦
          let (taken, at, returned, stored, claimed) =
            claim_taken stale_before current id before w found due in
          let same : taken ≡ after = cc in
          let kept : lookup id (claim_processable id stale_before current w).1.tables.jobs
              ≡ some taken =
            ap (λ t. lookup id t.jobs) stored
            ∙ ap (λ i. lookup id (insert i taken w.tables.jobs)) keyed
            ∙ lookup-insert_self id taken w.tables.jobs in
          record {
            at = at;
            claimed = subst (λ x. Claimed before x (w.uuid w.drawn) at) same claimed;
            stored = kept ∙ ap some same;
          }
    ]

-- A job that was claimed, and is stored as the claim left it, cannot be claimed again by a worker for
-- whom leases up to a time before that claim's are stale: the worker gets none, and nothing changes.
pub claimed_twice :
    (id : ℕ) (stale_before : Option ℕ) (current : ℕ) (before after : ProcessingJob) (w : World)
    (stale_again current_again : ℕ) (w' : World)
    → lookup id w.tables.jobs ≡ some before
    → before.id ≡ id
    → (claim_processable id stale_before current w).0 ≡ ok (some after)
    → lookup id w'.tables.jobs
      ≡ lookup id (claim_processable id stale_before current w).1.tables.jobs
    → stale_again < after.updated_at
    → claim_processable id (some stale_again) current_again w' ≡ (ok none, w')
unfolding claim_processable get
claimed_twice id stale_before current before after w stale_again current_again w' found keyed h
      untouched fresh =
    let d = claim-Done id stale_before current before after w found keyed h in
    let not_now =
      claimed_once before after (w.uuid w.drawn) d.at stale_again current_again d.claimed
        (subst (λ t. stale_again < t) d.claimed.stamped fresh) in
    rw (untouched ∙ d.stored, not_now) refl

-- A worker that claimed a job, and whose job another worker claimed later, after more UUIDs were
-- drawn: whatever the first worker writes of the job under its lease raises and changes nothing, so
-- long as no two UUIDs are equal.
pub taken_over :
    (id : ℕ) (stale_before stale_after : Option ℕ) (current current_after : ℕ)
    (before mine held theirs job : ProcessingJob) (w w' : World)
    → lookup id w.tables.jobs ≡ some before
    → before.id ≡ id
    → (claim_processable id stale_before current w).0 ≡ ok (some mine)
    → w.drawn < w'.drawn
    → w'.uuid ≡ w.uuid
    → ((i j : ℕ) → i < j → w.uuid i ≢ w.uuid j)
    → lookup id w'.tables.jobs ≡ some held
    → held.id ≡ id
    → (claim_processable id stale_after current_after w').0 ≡ ok (some theirs)
    → job.id ≡ id
    → let later = (claim_processable id stale_after current_after w').1 in
      save mine.lease_token job later ≡ (err lease_lost, later)
taken_over id stale_before stale_after current current_after before mine held theirs job w w' found
      keyed first later_on same_source apart found' keyed' second own =
    let a = claim-Done id stale_before current before mine w found keyed first in
    let b = claim-Done id stale_after current_after held theirs w' found' keyed' second in
    let later = (claim_processable id stale_after current_after w').1 in
    let token : mine.lease_token ≡ some (w.uuid w.drawn) = a.claimed.leased in
    let other : w.uuid w.drawn ≢ w'.uuid w'.drawn =
      λ same. apart w.drawn w'.drawn later_on (same ∙ ap (λ u. u w'.drawn) same_source) in
    rw token (
      superseded_refused held theirs job (w'.uuid w'.drawn) b.at (w.uuid w.drawn) later b.claimed
        (ap (λ i. lookup i later.tables.jobs) own ∙ b.stored) other)
