-- ===== src/Documents/Contracts.antt =====
-- The values that parsers and extractors exchange with the pipeline
-- (backend/app/providers/contracts.py), what is stored of them
-- (backend/app/documents/repositories.py) and a queued message
-- (backend/app/documents/processing_queue.py). Token counts and model names, which the modelled
-- code passes on and never reads, are left out.
use ai_document_ops_system.Prelude.{ℕ, Bool, Option, String, List}
use ai_document_ops_system.Invoice.Schemas.{InvoiceExtraction}
use ai_document_ops_system.Invoice.Validation.{ValidationReport}

pub record ParsedPage : Type 0 where
  pub page_number : ℕ
  pub text : String

pub record ParsedDocument : Type 0 where
  pub text : String
  pub pages : List ParsedPage
  pub provider_name : String
  pub provider_trace_id : Option String

pub record DocumentSource : Type 0 where
  pub storage_key : String
  pub original_filename : String
  pub content_type : String

pub record ExtractionResult : Type 0 where
  pub extraction : InvoiceExtraction
  pub provider_name : String
  pub provider_trace_id : Option String

pub record StoredExtraction : Type 0 where
  pub document_id : ℕ
  pub extraction_result : ExtractionResult
  pub validation_report : ValidationReport

pub record ProcessingMessage : Type 0 where
  pub job_id : ℕ
  pub document_id : ℕ
  pub workspace_id : String
  pub trace_id : String
  pub schema_version : ℕ

-- The JSON text of a body, as it is decoded: `malformed` where `json`, `UUID` or the comparison of the
-- keys refuses it, `infinite_version` where `int` raises `OverflowError` on the schema version, as it
-- does on `Infinity` and `1e400`.
pub data MessageBody : Type 0 where
  malformed infinite_version : MessageBody
  decoded : ProcessingMessage → MessageBody

pub record MemoryDelivery : Type 0 where
  pub body : MessageBody
  pub delivery_count : ℕ

pub record MemoryQueue : Type 0 where
  pub enabled : Bool
  pub pending : List MemoryDelivery
  pub dead_letters : List MemoryDelivery
