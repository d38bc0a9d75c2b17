-- ===== src/Documents/Pipeline.antt =====
-- backend/app/documents/extraction_pipeline.py. The parser, the extractor and the file storage are
-- chosen by configuration and talk to services: they are calls that may raise and change anything,
-- as other workers may while they run.
use ai_document_ops_system.Prelude.{not, String, List, ◌++◌, is_empty, if◌then◌else◌, false}
use ai_document_ops_system.Prelude.Text.{is_blank}
use ai_document_ops_system.Core.Errors.{guard, provider_error}
use ai_document_ops_system.Documents.Models.{DocumentRecord}
use ai_document_ops_system.Documents.Contracts.{DocumentSource, ParsedDocument, ExtractionResult}
use ai_document_ops_system.Documents.DuplicateCheck.{validate_document_invoice}
use ai_document_ops_system.Documents.UntrustedContent.{TextSearch, validate_untrusted_extraction}
use ai_document_ops_system.Invoice.Schemas.{Unicode}
use ai_document_ops_system.Invoice.Validation.{ValidationIssue, ValidationReport}
use ai_document_ops_system.Runtime.{M, pure, lift, ◌>>=◌, ◌>>◌}

pub record Providers : Type 0 where
  pub open_for_parser : String → M (Unit {0})
  pub parser_name : String
  pub parse : DocumentSource → M ParsedDocument
  pub extract_invoice : ParsedDocument → M ExtractionResult
  pub search : TextSearch

pub record Extracted : Type 0 where
  pub result : ExtractionResult
  pub report : ValidationReport
  pub security_issues : List ValidationIssue

unfoldable pub source : Providers → DocumentRecord → M DocumentSource
source p document = do
  p.open_for_parser document.storage_key
  pure (record {
    storage_key = document.storage_key;
    original_filename = document.original_filename;
    content_type = document.content_type;
  })

unfoldable pub with_security_issues : ValidationReport → List ValidationIssue → ValidationReport
with_security_issues report security_issues =
    if is_empty security_issues
    then report
    else record { issues = report.issues ++ security_issues }

unfoldable pub extract : ⦃u : Unicode⦄ → Providers → DocumentRecord → M Extracted
unfolding source with_security_issues
extract p document = do
  from ← source p document
  parsed ← p.parse from
  lift (
      guard (not (is_blank parsed.text)) (provider_error "empty_document_text" p.parser_name false))
  result ← p.extract_invoice parsed
  report ← validate_document_invoice result.extraction.invoice document
  let issues = validate_untrusted_extraction p.search result.extraction parsed result.provider_name
  pure (record {
    result = result;
    report = with_security_issues report issues;
    security_issues = issues;
  })
