-- ===== src/Scenarios/Reviews.antt =====
-- Reviews and the validation of invoices.
use ai_document_ops_system.Prelude.{◌≡◌, ◌↔◌, refl, none, some, [], ◌∷◌, ◌++◌, true, false, inl}
use ai_document_ops_system.Prelude.Dict.{lookup, insert}
use ai_document_ops_system.Core.Errors.{is_ok}
use ai_document_ops_system.Documents.Status.{DocumentStatus}
use ai_document_ops_system.Documents.Workflow.Effect.{moved, move_event}
use ai_document_ops_system.Invoice.Consistency.{IsConsistent, has_errors-IsConsistent}
use ai_document_ops_system.Invoice.Schemas.{InvoiceData}
use ai_document_ops_system.Invoice.Validation.{validate_invoice, has_errors}
use ai_document_ops_system.Review.Approval.{IsApprovable, approve_only, approve_approvable}
use ai_document_ops_system.Review.Service.{approve, reject, save_review, get_or_create_task}
use ai_document_ops_system.Review.Corrected.{approved_correction}
use ai_document_ops_system.Documents.Contracts.{StoredExtraction}
use ai_document_ops_system.Scenarios.Data.{
  admin_context, world, tables, document, stored, invoice, reviewer_context, plain,
}

abbrev changed : InvoiceData
changed = record invoice { vendor_name = some "Acme Ltd" }

abbrev approvable : IsApprovable 1 reviewer_context tables
unfolding lookup has_errors
approvable = record {
  document = document 1 DocumentStatus.needs_review;
  found = refl;
  same_workspace = refl;
  waiting = refl;
  stored = stored 1;
  extracted = refl;
  no_errors = refl;
  reviewer = inl refl;
}

approve_only_example : IsApprovable 1 reviewer_context tables
unfolding approve ai_document_ops_system.Review.Service.reviewable
    ai_document_ops_system.Core.Security.require_any_role lookup has_errors get_or_create_task
    ai_document_ops_system.Documents.Workflow.transition
    ai_document_ops_system.Review.Service.close_task
approve_only_example = approve_only 1 reviewer_context world refl

approve_approvable_example :
    let before = (get_or_create_task 1 world).1 in
    let after = (approve 1 reviewer_context world).1.tables in
    (is_ok (approve 1 reviewer_context world).0 ≡ true)
    × (after.documents
        ≡ insert 1
            (moved (document 1 DocumentStatus.needs_review) DocumentStatus.approved before)
            tables.documents)
    × (after.audits
        ≡ []
          ++ move_event
              (document 1 DocumentStatus.needs_review)
              DocumentStatus.approved
              "Invoice Reviewer"
              none
              before
            ∷ [])
    × (after.extractions ≡ tables.extractions)
    × (after.jobs ≡ tables.jobs)
unfolding approvable
approve_approvable_example = approve_approvable 1 reviewer_context world approvable

has_errors-IsConsistent_example :
    (has_errors (validate_invoice ⦃u = plain⦄ invoice) ≡ false) ↔ IsConsistent ⦃u = plain⦄ invoice
has_errors-IsConsistent_example = has_errors-IsConsistent ⦃u = plain⦄ invoice

approved_correction_example :
    IsConsistent ⦃u = plain⦄ changed
    × ((s : StoredExtraction) × (lookup 1
            (save_review ⦃u = plain⦄ 1 "fixed" reviewer_context
              (some changed)
              world).1.tables.extractions
          ≡ some s)
        × (s.extraction_result.extraction.invoice ≡ changed))
unfolding save_review approve lookup ai_document_ops_system.Core.Security.require_any_role insert
    has_errors validate_invoice ai_document_ops_system.Prelude.Text.is_empty_text
    ai_document_ops_system.Invoice.Decimal.gt ai_document_ops_system.Prelude.Int.◌*ℤ◌
    ai_document_ops_system.Invoice.Validation.differs ai_document_ops_system.Invoice.Decimal.abs
    ai_document_ops_system.Invoice.Decimal.sub ai_document_ops_system.Invoice.Decimal.add
    ai_document_ops_system.Prelude.Int.◌-ℤ◌ ai_document_ops_system.Prelude.Int.◌+ℤ◌
    ai_document_ops_system.Invoice.Validation.supported
    ai_document_ops_system.Documents.Workflow.transition
    ai_document_ops_system.Review.Service.close_task
approved_correction_example =
    approved_correction ⦃u = plain⦄ 1 "fixed" reviewer_context admin_context changed world refl refl
