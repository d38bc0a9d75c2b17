-- ===== src/Documents/Processing/Outcome.antt =====
-- The states in which processing leaves a document.
use ai_document_ops_system.Prelude.{
  ℕ, true, false, not, Option, none, String, List, [], ◌∷◌, ◌≡◌, refl, sym, subst, if◌then◌else◌,
  arith,
}
use ai_document_ops_system.Core.Errors.{Error, Result, ok, err}
use ai_document_ops_system.Core.Security.{SecurityContext}
use ai_document_ops_system.Documents.Status.{DocumentStatus, status_eq, status_in}
use ai_document_ops_system.Documents.JobModel.{ProcessingJob}
use ai_document_ops_system.Documents.Models.{DocumentRecord, AuditEvent}
use ai_document_ops_system.Documents.Pipeline.{Providers, Extracted}
use ai_document_ops_system.Documents.Processing.{run_job, record_outcome, process_job}
use ai_document_ops_system.Documents.Repositories.{save_document}
use ai_document_ops_system.Documents.Results.{record_success, record_failure, retry_later, give_up}
use ai_document_ops_system.Documents.RetryPolicy.{RetryPolicy}
use ai_document_ops_system.Documents.Workflow.{transition, write_transition, workflow_transition}
use ai_document_ops_system.Invoice.Schemas.{Unicode}
use ai_document_ops_system.Runtime.{World, M, ◌>>=◌}
use ai_document_ops_system.Runtime.Yields.{
  OfOk-ok, Yields, Yields-pure, Yields-bind, Yields-last, Yields-if, Yields-if_known, Yields-weaken,
  Yields-transaction,
}

-- The state that a call leaves a document in.
abbrev InState : DocumentStatus → DocumentRecord → Type 0
InState target d = d.status ≡ target

workflow_transition-InState :
    (d : DocumentRecord) (target : DocumentStatus) (actor : String) (summary : Option String)
    → Yields
        (λ (x : DocumentRecord × AuditEvent). InState target x.0)
        (workflow_transition d target actor summary)
unfolding workflow_transition
workflow_transition-InState d target actor summary = search (Yields-last, Yields-pure) depth 12

transition-InState :
    (d : DocumentRecord) (target : DocumentStatus) (actor : String) (summary : Option String)
    → Yields (InState target) (transition d target actor summary)
unfolding transition write_transition
transition-InState d target actor summary = Yields-transaction _ (
    Yields-bind _ _ (workflow_transition-InState d target actor summary)
      (λ x h. search (Yields-last, Yields-pure, h) depth 12))

abbrev processed_states : List DocumentStatus
processed_states = DocumentStatus.needs_review ∷ DocumentStatus.queued ∷ DocumentStatus.failed ∷ []

abbrev IsProcessed : DocumentRecord → Type 0
IsProcessed d = status_in d.status processed_states ≡ true

transition-IsProcessed :
    (target : DocumentStatus)
    → status_in target processed_states ≡ true
    → (d : DocumentRecord) (actor : String) (summary : Option String)
    → Yields IsProcessed (transition d target actor summary)
transition-IsProcessed target h d actor summary =
    Yields-weaken (λ a e. subst (λ s. status_in s processed_states ≡ true) (sym e) h) _
      (transition-InState d target actor summary)

-- What follows a change of state may use the new state.
after_transition :
    {B : Type 0} {Q : B → Type 0} (target : DocumentStatus)
    → status_in target processed_states ≡ true
    → (d : DocumentRecord) (actor : String) (summary : Option String) (f : DocumentRecord → M B)
    → ((x : DocumentRecord) → IsProcessed x → Yields Q (f x))
    → Yields Q (transition d target actor summary >>= f)
after_transition target h d actor summary f k =
    Yields-bind f _ (transition-IsProcessed target h d actor summary) k

save_document-IsProcessed :
    (d : DocumentRecord) → IsProcessed d → Yields IsProcessed (save_document d)
unfolding save_document
save_document-IsProcessed d h = search (Yields-last, Yields-pure, h) depth 8

record_success-IsProcessed :
    (d : DocumentRecord) (job : ProcessingJob) (c : SecurityContext) (e : Extracted) (token : ℕ)
    → Yields IsProcessed (record_success d job c e token)
unfolding record_success
record_success-IsProcessed d job c e token =
    search
      (
        Yields-transaction,
        Yields-last,
        Yields-pure,
        after_transition DocumentStatus.needs_review refl,
      )
      depth 16

-- The same of the document in a pair.
abbrev IsProcessedPair : DocumentRecord × ProcessingJob → Type 0
IsProcessedPair x = IsProcessed x.0

retry_later-IsProcessed :
    (policy : RetryPolicy) (d : DocumentRecord) (job : ProcessingJob) (c : SecurityContext)
    (code : String)
    → Yields IsProcessedPair (retry_later policy d job c code)
unfolding retry_later
retry_later-IsProcessed policy d job c code =
    search (Yields-last, Yields-pure, after_transition DocumentStatus.queued refl) depth 16

already_failed :
    (s : DocumentStatus)
    → not (status_eq s DocumentStatus.failed) ≡ false
    → status_in s processed_states ≡ true
already_failed s h = ground (arith, h)

after_marked :
    {B : Type 0} {Q : B → Type 0} (d : DocumentRecord) (actor : String) (f : DocumentRecord → M B)
    → ((x : DocumentRecord) → IsProcessed x → Yields Q (f x))
    → Yields Q (
        (if not (status_eq d.status DocumentStatus.failed)
          then transition d DocumentStatus.failed actor none
          else save_document d)
        >>= f)
after_marked d actor f k =
    Yields-bind f _
      (Yields-if_known (not (status_eq d.status DocumentStatus.failed)) _ _
        (λ h. transition-IsProcessed DocumentStatus.failed refl d actor none)
        (λ h. save_document-IsProcessed d (already_failed d.status h)))
      k

give_up-IsProcessed :
    (d : DocumentRecord) (job : ProcessingJob) (c : SecurityContext) (e : Error)
    → Yields IsProcessedPair (give_up d job c e)
unfolding give_up
give_up-IsProcessed d job c e =
    search
      (
        Yields-last,
        Yields-pure,
        λ (code : Option String).
            after_marked {Q = IsProcessedPair} (record d { error_message = code }) c.actor,
      )
      depth 12

record_failure-IsProcessed :
    (policy : RetryPolicy) (d : DocumentRecord) (job : ProcessingJob) (c : SecurityContext)
    (e : Error) (token : ℕ)
    → Yields IsProcessed (record_failure policy d job c e token)
unfolding record_failure
record_failure-IsProcessed policy d job c e token = Yields-transaction _ (
    Yields-bind _ _
      (Yields-if _ _ _ (retry_later-IsProcessed policy d job c _) (give_up-IsProcessed d job c e))
      (λ x h. search (Yields-last, Yields-pure, h) depth 8))

record_outcome-IsProcessed :
    (policy : RetryPolicy) (d : DocumentRecord) (job : ProcessingJob) (c : SecurityContext)
    (token : ℕ) (outcome : Result Extracted)
    → Yields IsProcessed (record_outcome policy d job c token outcome)
unfolding record_outcome
record_outcome-IsProcessed policy d job c token (ok x) = record_success-IsProcessed d job c x token
record_outcome-IsProcessed policy d job c token (err e) =
    record_failure-IsProcessed policy d job c e token

run_job-IsProcessed :
    ⦃u : Unicode⦄
    → (p : Providers) (policy : RetryPolicy) (job : ProcessingJob) (c : SecurityContext)
      (claimed : Option ℕ)
    → Yields IsProcessed (run_job p policy job c claimed)
unfolding run_job
run_job-IsProcessed p policy job c claimed =
    search (Yields-last, record_outcome-IsProcessed) depth 20

process_job-IsProcessed :
    ⦃u : Unicode⦄
    → (p : Providers) (policy : RetryPolicy) (id : ℕ) (c : SecurityContext) (claimed : Option ℕ)
    → Yields IsProcessed (process_job p policy id c claimed)
unfolding process_job
process_job-IsProcessed p policy id c claimed = search (Yields-last, run_job-IsProcessed) depth 12

-- A document that `process_job` returns, whatever the providers do, waits for review, waits in the
-- queue for another attempt, or has failed: it is not approved, rejected or exported.
pub processed_state :
    ⦃u : Unicode⦄
    → (p : Providers) (policy : RetryPolicy) (id : ℕ) (c : SecurityContext) (claimed : Option ℕ)
      (w : World) (d : DocumentRecord)
    → (process_job p policy id c claimed w).0 ≡ ok d
    → status_in d.status
        (DocumentStatus.needs_review ∷ DocumentStatus.queued ∷ DocumentStatus.failed ∷ [])
      ≡ true
processed_state p policy id c claimed w d h =
    OfOk-ok IsProcessed _ d ((process_job-IsProcessed p policy id c claimed).yielded w) h
