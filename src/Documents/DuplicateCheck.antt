-- ===== src/Documents/DuplicateCheck.antt =====
-- backend/app/validation/document.py: the rules on one invoice, and the search for an earlier one of
-- the same vendor and number.
use ai_document_ops_system.Prelude.{
  ℕ, Bool, false, not, ◌&&◌, ◌||◌, Option, none, some, String, List, [], ◌∷◌, ◌++◌, ◌==◌, str_eq,
  is_empty, if◌then◌else◌,
}
use ai_document_ops_system.Prelude.Dict.{lookup}
use ai_document_ops_system.Documents.Models.{DocumentRecord}
use ai_document_ops_system.Documents.Repositories.{identity_text, find_by_invoice_identity}
use ai_document_ops_system.Invoice.Schemas.{InvoiceData, Unicode}
use ai_document_ops_system.Invoice.Validation.{
  ValidationIssue, ValidationReport, named, error, duplicate_invoice, validate_invoice,
}
use ai_document_ops_system.Runtime.{M, Tables, pure, read, ◌>>=◌}

unfoldable pub invoice_identity :
    ⦃u : Unicode⦄ → Option String → Option String → Option (List ℕ × List ℕ)
unfolding identity_text
invoice_identity vendor_name invoice_number =
    let vendor = identity_text vendor_name in
    let number = identity_text invoice_number in
    if is_empty vendor || is_empty number then none else some (vendor, number)

abbrev pub duplicate_issue : ValidationIssue
duplicate_issue = record {
  field_name = named "invoice_number";
  severity = error;
  code = duplicate_invoice;
  message = "This vendor and invoice number already appear on another invoice.";
}

-- `documents.get` with its `except NotFoundError: continue`, and the test of the workspace.
unfoldable pub in_workspace : String → Option DocumentRecord → Bool
in_workspace workspace_id none = false
in_workspace workspace_id (some candidate) = str_eq candidate.workspace_id workspace_id

-- The loop over the candidates: whether one of them is another invoice of the workspace.
unfoldable pub has_duplicate : Tables → DocumentRecord → List ℕ → Bool
unfolding in_workspace
has_duplicate t document [] = false
has_duplicate t document (id ∷ ids) =
    (not (id == document.id) && in_workspace document.workspace_id (lookup id t.documents))
    || has_duplicate t document ids

unfoldable pub report_duplicate :
    ⦃u : Unicode⦄
    → ValidationReport
    → DocumentRecord
    → Option (List ℕ × List ℕ)
    → M ValidationReport
unfolding find_by_invoice_identity has_duplicate
report_duplicate report document none = pure report
report_duplicate report document (some (vendor, number)) = do
  candidates ← find_by_invoice_identity vendor number
  found ← read (λ t. has_duplicate t document candidates)
  pure (if found then record { issues = report.issues ++ duplicate_issue ∷ [] } else report)

unfoldable pub validate_document_invoice :
    ⦃u : Unicode⦄ → InvoiceData → DocumentRecord → M ValidationReport
unfolding invoice_identity report_duplicate
validate_document_invoice invoice document =
    report_duplicate (validate_invoice invoice) document
      (invoice_identity invoice.vendor_name invoice.invoice_number)
