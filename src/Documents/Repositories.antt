-- ===== src/Documents/Repositories.antt =====
-- The in-memory repositories of documents, audit events, extractions and review tasks:
-- backend/app/documents/repositories.py. Values go in and come out as copies.
use ai_document_ops_system.Prelude.{
  ℕ, Bool, ◌&&◌, Option, none, some, String, List, [], ◌∷◌, ◌++◌, ◌==◌, str_eq, select,
  if◌then◌else◌,
}
use ai_document_ops_system.Prelude.Dict.{lookup, insert, values}
use ai_document_ops_system.Prelude.Text.{codes}
use ai_document_ops_system.Core.Errors.{not_found, require_some}
use ai_document_ops_system.Documents.Status.{DocumentStatus, status_eq}
use ai_document_ops_system.Documents.Models.{DocumentRecord, AuditEvent, ReviewTask}
use ai_document_ops_system.Documents.Contracts.{StoredExtraction, ExtractionResult}
use ai_document_ops_system.Invoice.Schemas.{Unicode, map_text}
use ai_document_ops_system.Invoice.Validation.{ValidationReport, codes_eq}
use ai_document_ops_system.Runtime.{M, Tables, pure, lift, read, write, ◌>>=◌, ◌>>◌}

abbrev pub set_document : DocumentRecord → Tables → Tables
set_document d t = record t { documents = insert d.id d t.documents }

unfoldable pub save_document : DocumentRecord → M DocumentRecord
save_document d = do write (set_document d); pure d

unfoldable pub get_document : ℕ → M DocumentRecord
get_document id = do found ← read (λ t. lookup id t.documents); lift (require_some found not_found)

unfoldable pub list_by_workspace : String → M (List DocumentRecord)
list_by_workspace workspace_id =
    read (λ t. select (λ d. str_eq d.workspace_id workspace_id) (values t.documents))

unfoldable pub list_by_workspace_and_status : String → DocumentStatus → M (List DocumentRecord)
list_by_workspace_and_status workspace_id status = read (λ t.
    select (λ d. str_eq d.workspace_id workspace_id && status_eq d.status status)
      (values t.documents))

abbrev pub append_audit : AuditEvent → Tables → Tables
append_audit e t = record t { audits = t.audits ++ e ∷ [] }

unfoldable pub add_audit : AuditEvent → M AuditEvent
add_audit e = do write (append_audit e); pure e

unfoldable pub list_audits : ℕ → M (List AuditEvent)
list_audits document_id = read (λ t. select (λ e. e.document_id == document_id) t.audits)

unfoldable pub save_extraction : ℕ → ExtractionResult → ValidationReport → M StoredExtraction
save_extraction document_id result report = do
  let stored =
      let s : StoredExtraction = record {
        document_id = document_id;
        extraction_result = result;
        validation_report = report;
      } in
      s
  write (λ t. record t { extractions = insert document_id stored t.extractions })
  pure stored

unfoldable pub get_extraction : ℕ → M StoredExtraction
get_extraction id = do
  found ← read (λ t. lookup id t.extractions)
  lift (require_some found not_found)

-- `_identity_text`: the letters and digits of a text, case-folded.
unfoldable pub identity_text : ⦃u : Unicode⦄ → Option String → List ℕ
unfolding map_text
identity_text ⦃u⦄ none = []
identity_text ⦃u⦄ (some value) = select u.is_alnum (map_text u.casefold (codes value))

unfoldable pub has_identity : ⦃u : Unicode⦄ → List ℕ → List ℕ → StoredExtraction → Bool
unfolding identity_text codes_eq
has_identity vendor number stored =
    let invoice = stored.extraction_result.extraction.invoice in
    codes_eq (identity_text invoice.vendor_name) vendor
    && codes_eq (identity_text invoice.invoice_number) number

unfoldable pub keys_where : (StoredExtraction → Bool) → List (ℕ × StoredExtraction) → List ℕ
keys_where p [] = []
keys_where p ((k, stored) ∷ d) = let rest = keys_where p d in if p stored then k ∷ rest else rest

unfoldable pub find_by_invoice_identity : ⦃u : Unicode⦄ → List ℕ → List ℕ → M (List ℕ)
unfolding has_identity keys_where
find_by_invoice_identity vendor number =
    read (λ t. keys_where (has_identity vendor number) t.extractions)

unfoldable pub save_review_task : ReviewTask → M ReviewTask
save_review_task task = do
  write (λ t. record t { reviews = insert task.document_id task t.reviews })
  pure task

unfoldable pub find_review_task : ℕ → M (Option ReviewTask)
find_review_task document_id = read (λ t. lookup document_id t.reviews)
