-- ===== src/Review/Corrected.antt =====
-- What a reviewer's correction of backend/app/review/services.py makes of a later approval.
use ai_document_ops_system.Prelude.{
  ℕ, Bool, true, false, not, ◌&&◌, Option, none, some, String, List, [], ◌∷◌, ◌++◌, ◌≡◌, refl,
  arith, if◌then◌else◌, any-append, ap,
}
use ai_document_ops_system.Prelude.Dict.{Dict, lookup, lookup-insert_self}
use ai_document_ops_system.Core.Errors.{is_ok}
use ai_document_ops_system.Core.Security.{SecurityContext}
use ai_document_ops_system.Documents.Contracts.{StoredExtraction, ExtractionResult}
use ai_document_ops_system.Documents.DuplicateCheck.{validate_document_invoice, report_duplicate}
use ai_document_ops_system.Documents.Models.{AuditEvent, DocumentRecord, ReviewTask}
use ai_document_ops_system.Documents.Repositories.{
  get_extraction, add_audit, save_extraction, save_review_task, find_review_task,
}
use ai_document_ops_system.Documents.Status.{DocumentStatus}
use ai_document_ops_system.Documents.Workflow.{new_event}
use ai_document_ops_system.Invoice.Consistency.{IsConsistent, has_errors-IsConsistent}
use ai_document_ops_system.Invoice.Schemas.{InvoiceData, Unicode}
use ai_document_ops_system.Invoice.Validation.{
  ValidationReport, ValidationIssue, validate_invoice, has_errors, is_error,
}
use ai_document_ops_system.Review.Corrections.Capture.{capture}
use ai_document_ops_system.Review.Models.{reviewer_edit}
use ai_document_ops_system.Review.Approval.{approve_only}
use ai_document_ops_system.Review.Service.{
  task_or_new, save_review, save_correction, approve, get_or_create_task,
}
use ai_document_ops_system.Runtime.{Tables, World, pure, ◌>>=◌, ◌>>◌}
use ai_document_ops_system.Runtime.Keeps.{Keeps, keeps_rules}
use ai_document_ops_system.Runtime.Leaves.{
  Leaves, Leaves-transaction, Leaves-last, Leaves-then, Leaves-known,
}
use ai_document_ops_system.Runtime.Yields.{Yields, Yields-pure, Yields-last}

module _ ⦃u : Unicode⦄ (corrected : InvoiceData) where
  -- The report finds an error where the rules on one invoice do.
  record Covers (report : ValidationReport) : Type 0 where
    pub covered : (has_errors (validate_invoice corrected) && not (has_errors report)) ≡ false

  -- The corrected invoice is stored, with a report that covers it.
  record IsSaved (id : ℕ) (extractions : Dict StoredExtraction) : Type 0 where
    pub stored : StoredExtraction
    pub extracted : lookup id extractions ≡ some stored
    pub same : stored.extraction_result.extraction.invoice ≡ corrected
    pub covering : Covers stored.validation_report

  abbrev Saved : ℕ → Tables → Type 0
  Saved id t = IsSaved id t.extractions

  appended-Covers :
      (found : Bool) (duplicate : ValidationIssue)
      → Covers (
          if found
          then record { issues = (validate_invoice corrected).issues ++ duplicate ∷ [] }
          else validate_invoice corrected)
  unfolding has_errors
  appended-Covers true duplicate = record {
    covered =
        ground (arith, any-append is_error (validate_invoice corrected).issues (duplicate ∷ []));
  }
  appended-Covers false duplicate = record { covered = ground arith }

  duplicate-Covers :
      (document : DocumentRecord) (identity : Option (List ℕ × List ℕ))
      → Yields Covers (report_duplicate (validate_invoice corrected) document identity)
  unfolding report_duplicate
  duplicate-Covers document none = Yields-pure _ (record { covered = ground arith })
  duplicate-Covers document (some (vendor, number)) =
      search (Yields-last, Yields-pure, appended-Covers) depth 9

  report-Covers :
      (document : DocumentRecord) → Yields Covers (validate_document_invoice corrected document)
  unfolding validate_document_invoice
  report-Covers document = duplicate-Covers document _

  save-Leaves :
      (id : ℕ) (result : ExtractionResult) (report : ValidationReport)
      → result.extraction.invoice ≡ corrected
      → Covers report
      → Leaves (Saved id) (save_extraction id result report)
  unfolding save_extraction
  save-Leaves id result report same covered = record {
    left = λ w h. record {
      stored = _;
      extracted = lookup-insert_self id _ w.tables.extractions;
      same = same;
      covering = covered;
    };
  }

  module _ (id : ℕ) where
    Keeps-add_audit : (e : AuditEvent) → Keeps (Saved id) (add_audit e)
    unfolding add_audit
    Keeps-add_audit e = record { kept = λ w h. h }

    Keeps-new_event :
        (d : ℕ) (name actor : String) (old new : Option DocumentStatus) (summary : Option String)
        → Keeps (Saved id) (new_event d name actor old new summary)
    unfolding new_event
    Keeps-new_event d name actor old new summary = search keeps_rules depth 9

    Keeps-save_review_task : (task : ReviewTask) → Keeps (Saved id) (save_review_task task)
    unfolding save_review_task
    Keeps-save_review_task task = record { kept = λ w h. h }

    Keeps-task_or_new : (d : ℕ) (found : Option ReviewTask) → Keeps (Saved id) (task_or_new d found)
    unfolding task_or_new
    Keeps-task_or_new d none = search keeps_rules depth 9
    Keeps-task_or_new d (some task) = search keeps_rules

    Keeps-get_or_create_task : (d : ℕ) → Keeps (Saved id) (get_or_create_task d)
    unfolding get_or_create_task find_review_task
    Keeps-get_or_create_task d = search (keeps_rules, Keeps-task_or_new) depth 9

    updated-Keeps :
        (document : DocumentRecord) (context : SecurityContext)
        → Keeps (Saved id) (do
          event ←
              new_event id "extraction_updated" context.actor
                (some document.status)
                (some document.status)
                (some "corrected extraction saved")
          add_audit event
          pure tt)
    updated-Keeps document context = search (keeps_rules, Keeps-add_audit, Keeps-new_event) depth 9

    stored-Leaves :
        (document : DocumentRecord) (context : SecurityContext) (old : ExtractionResult)
        (report : ValidationReport)
        → Covers report
        → Leaves (Saved id) (do
          save_extraction id
              (record {
                extraction = record {
                  invoice = corrected;
                  schema_version = old.extraction.schema_version;
                  confidence = old.extraction.confidence;
                };
                provider_name = old.provider_name;
                provider_trace_id = old.provider_trace_id;
              })
              report
          event ←
              new_event id "extraction_updated" context.actor
                (some document.status)
                (some document.status)
                (some "corrected extraction saved")
          add_audit event
          pure tt)
    stored-Leaves document context old report covering =
        Leaves-then
          (save_extraction id
            (record {
              extraction = record {
                invoice = corrected;
                schema_version = old.extraction.schema_version;
                confidence = old.extraction.confidence;
              };
              provider_name = old.provider_name;
              provider_trace_id = old.provider_trace_id;
            })
            report)
          _ (save-Leaves id _ report refl covering) (λ saved. updated-Keeps document context)

    correction-Leaves :
        (document : DocumentRecord) (notes : String) (context : SecurityContext)
        → Leaves (Saved id) (save_correction document id notes context (some corrected))
    unfolding save_correction
    correction-Leaves document notes context = Leaves-last (get_extraction id) _ (λ stored.
        Leaves-last
          (capture document.workspace_id id stored.extraction_result.extraction.invoice corrected
            context.actor (some notes) reviewer_edit none)
          _
          (λ event.
            Leaves-known (validate_document_invoice corrected document) _ (report-Covers document)
              (stored-Leaves document context stored.extraction_result)))

    review-Leaves :
        (notes : String) (context : SecurityContext)
        → Leaves (Saved id) (save_review id notes context (some corrected))
    unfolding save_review
    review-Leaves notes context =
        search
          (
            Leaves-last, Leaves-transaction, Leaves-then, correction-Leaves, keeps_rules,
            Keeps-add_audit, Keeps-new_event, Keeps-save_review_task, Keeps-get_or_create_task,
          )
          depth 9

-- Where a reviewer saved a corrected invoice, and the document is then approved, by whomever: the
-- corrected invoice is the stored one, and it is consistent. So a correction that leaves the invoice
-- inconsistent stands in the way of the approval.
pub approved_correction :
    ⦃u : Unicode⦄
    → (id : ℕ) (notes : String) (context approver : SecurityContext) (corrected : InvoiceData)
      (w : World)
    → is_ok (save_review id notes context (some corrected) w).0 ≡ true
    → is_ok (approve id approver (save_review id notes context (some corrected) w).1).0 ≡ true
    → IsConsistent corrected
      × ((stored : StoredExtraction) × (lookup id
              (save_review id notes context (some corrected) w).1.tables.extractions
            ≡ some stored)
          × (stored.extraction_result.extraction.invoice ≡ corrected))
approved_correction id notes context approver corrected w saved approved =
    let s = (review-Leaves corrected id notes context).left w saved in
    let a = approve_only id approver (save_review id notes context (some corrected) w).1 approved in
    let one : s.stored ≡ a.stored = cc in
    (
      (has_errors-IsConsistent corrected).0 (
          ground
            (arith, s.covering.covered, ap (λ x. has_errors x.validation_report) one, a.no_errors)),
      (s.stored, s.extracted, s.same),
    )
