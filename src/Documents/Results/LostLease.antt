-- ===== src/Documents/Results/LostLease.antt =====
-- The results that a worker records (backend/app/documents/processing_results.py) after it lost the
-- lease of its job.
use ai_document_ops_system.Prelude.{ℕ, String, Option, none, some, List, true, false, ◌≡◌, arith}
use ai_document_ops_system.Prelude.Dict.{lookup}
use ai_document_ops_system.Core.Errors.{is_ok}
use ai_document_ops_system.Core.Security.{SecurityContext}
use ai_document_ops_system.Documents.JobModel.{ProcessingJob}
use ai_document_ops_system.Documents.Jobs
use ai_document_ops_system.Documents.JobStore.{lease_differs, check_lease, effective_token}
use ai_document_ops_system.Documents.JobStore
use ai_document_ops_system.Documents.Models.{DocumentRecord, AuditEvent}
use ai_document_ops_system.Documents.Pipeline.{Extracted}
use ai_document_ops_system.Documents.Repositories.{add_audit, save_document, save_extraction}
use ai_document_ops_system.Documents.Contracts.{ExtractionResult}
use ai_document_ops_system.Documents.Results.{flag_untrusted, record_success, review_summary}
use ai_document_ops_system.Documents.Status.{DocumentStatus}
use ai_document_ops_system.Documents.Workflow.{
  transition, write_transition, workflow_transition, new_event,
}
use ai_document_ops_system.Invoice.Validation.{ValidationIssue, ValidationReport}
use ai_document_ops_system.Runtime.{Tables, World, pure, ◌>>=◌, ◌>>◌}
use ai_document_ops_system.Runtime.Effects.{Atomic, Atomic-transaction}
use ai_document_ops_system.Runtime.Keeps.{
  Keeps, Fails, keeps_rules, Fails-bind, Fails-first, Fails-transaction,
}

-- The stored job, if there is one, does not carry the token.
pub record IsLost (id token : ℕ) (t : Tables) : Type 0 where
  pub differs : lease_differs (lookup id t.jobs) (some token) ≡ true

module _ (id token : ℕ) where
  Keeps-workflow :
      (d : DocumentRecord) (target : DocumentStatus) (actor : String) (summary : Option String)
      → Keeps (IsLost id token) (workflow_transition d target actor summary)
  unfolding workflow_transition new_event
  Keeps-workflow d target actor summary = search keeps_rules depth 12

  Keeps-new_event :
      (d : ℕ) (name actor : String) (old new : Option DocumentStatus) (summary : Option String)
      → Keeps (IsLost id token) (new_event d name actor old new summary)
  unfolding new_event
  Keeps-new_event d name actor old new summary = search keeps_rules depth 12

  Keeps-add_audit : (e : AuditEvent) → Keeps (IsLost id token) (add_audit e)
  unfolding add_audit
  Keeps-add_audit e = record { kept = λ w h. record { differs = h.differs } }

  pub Keeps-save_document : (d : DocumentRecord) → Keeps (IsLost id token) (save_document d)
  unfolding save_document
  Keeps-save_document d = record { kept = λ w h. record { differs = h.differs } }

  Keeps-save_extraction :
      (d : ℕ) (r : ExtractionResult) (report : ValidationReport)
      → Keeps (IsLost id token) (save_extraction d r report)
  unfolding save_extraction
  Keeps-save_extraction d r report = record { kept = λ w h. record { differs = h.differs } }

  pub Keeps-transition :
      (d : DocumentRecord) (target : DocumentStatus) (actor : String) (summary : Option String)
      → Keeps (IsLost id token) (transition d target actor summary)
  unfolding transition write_transition
  Keeps-transition d target actor summary =
      search (keeps_rules, Keeps-workflow, Keeps-add_audit, Keeps-save_document) depth 12

  Keeps-flag_untrusted :
      (d : DocumentRecord) (c : SecurityContext) (issues : List ValidationIssue)
      → Keeps (IsLost id token) (flag_untrusted d c issues)
  unfolding flag_untrusted
  Keeps-flag_untrusted d c issues = search (keeps_rules, Keeps-new_event, Keeps-add_audit) depth 12

lost-check_lease :
    (token : ℕ) (job : ProcessingJob) (current : Option ProcessingJob)
    → lease_differs current (some token) ≡ true
    → is_ok (check_lease (some token) job current) ≡ false
unfolding check_lease effective_token
lost-check_lease token job current h = ground (arith, h)

pub Fails-save :
    (token : ℕ) (job : ProcessingJob) → Fails (IsLost job.id token) (JobStore.save (some token) job)
unfolding JobStore.save
Fails-save token job = record {
  fails = λ w h. ground (arith, lost-check_lease token job (lookup job.id w.tables.jobs) h.differs);
}

Fails-succeed :
    (token : ℕ) (job : ProcessingJob) (d : DocumentRecord)
    → Fails
        (IsLost job.id token)
        (do done ← Jobs.succeed job; JobStore.save (some token) done; pure d)
unfolding Jobs.succeed
Fails-succeed token job d = record {
  fails = λ w h.
      (Fails-first _ (λ _. pure d) (Fails-save token _)).fails (Jobs.succeed job w).1
        (record { differs = h.differs });
}

-- A run whose token is no longer that of the stored job raises instead of recording its success.
Fails-record_success :
    (d : DocumentRecord) (job : ProcessingJob) (c : SecurityContext) (e : Extracted) (token : ℕ)
    → Fails (IsLost job.id token) (record_success d job c e token)
unfolding record_success
Fails-record_success d job c e token = Fails-transaction (
    Fails-bind _ _ (Keeps-flag_untrusted job.id token d c e.security_issues) (λ _.
      Fails-bind _ _ (Keeps-save_extraction job.id token d.id e.result e.report) (λ _.
        Fails-bind _ _ (Keeps-transition job.id token d DocumentStatus.extracted c.actor none) (λ x.
          Fails-bind _ _
            (Keeps-transition job.id token x DocumentStatus.needs_review c.actor
              (some (review_summary e.report)))
            (λ y.
              Fails-succeed token
                (record job {
                  provider_name = some e.result.provider_name;
                  provider_trace_id = e.result.provider_trace_id;
                })
                y)))))

Atomic-record_success :
    (d : DocumentRecord) (job : ProcessingJob) (c : SecurityContext) (e : Extracted) (token : ℕ)
    → Atomic (record_success d job c e token)
unfolding record_success
Atomic-record_success d job c e token = Atomic-transaction _

-- Over a store that rolls back, a run whose token is no longer that of the stored job fails to record
-- its success and leaves every table as it was: it changes no document, publishes no extraction and
-- writes no audit event.
pub lost_lease-record_success :
    (d : DocumentRecord) (job : ProcessingJob) (c : SecurityContext) (e : Extracted) (token : ℕ)
    (w : World)
    → w.rollback ≡ true
    → lease_differs (lookup job.id w.tables.jobs) (some token) ≡ true
    → (is_ok (record_success d job c e token w).0 ≡ false)
      × ((record_success d job c e token w).1.tables ≡ w.tables)
lost_lease-record_success d job c e token w b h =
    let failed = (Fails-record_success d job c e token).fails w (record { differs = h }) in
    (failed, (Atomic-record_success d job c e token).undone w b failed)
