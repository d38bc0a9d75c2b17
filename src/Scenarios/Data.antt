-- ===== src/Scenarios/Data.antt =====
-- A small installation: three documents, two jobs, a ready batch and an ended run.
use ai_document_ops_system.Prelude.{ℕ, ◌+◌, none, some, [], ◌∷◌, true, false}
use ai_document_ops_system.Prelude.Int.{pos}
use ai_document_ops_system.Core.Errors.{provider_error}
use ai_document_ops_system.Core.Security.{SecurityContext}
use ai_document_ops_system.Documents.Contracts.{
  StoredExtraction, ExtractionResult, MemoryDelivery, malformed, ProcessingMessage,
}
use ai_document_ops_system.Documents.JobModel.{ProcessingJob, ProcessingJobStatus}
use ai_document_ops_system.Documents.Models.{DocumentRecord}
use ai_document_ops_system.Documents.Pipeline.{Providers}
use ai_document_ops_system.Documents.RetryPolicy.{RetryPolicy}
use ai_document_ops_system.Documents.Status.{DocumentStatus}
use ai_document_ops_system.Exports.Execution.{ExportSetup}
use ai_document_ops_system.Exports.Models.{
  ExportBatchRecord, ExportBatchStatus, ExportRunRecord, succeeded,
}
use ai_document_ops_system.Invoice.Decimal.{Decimal}
use ai_document_ops_system.Invoice.Schemas.{InvoiceData, Unicode}
use ai_document_ops_system.Runtime.{World, Tables, pure, raise}

abbrev pub plain : Unicode
plain = record { upper = λ c. c ∷ []; casefold = λ c. c ∷ []; is_alnum = λ c. true }

abbrev pub euros : ℕ → Decimal
euros n = record { coefficient = pos (n + 0); places = 0 }

abbrev pub invoice : InvoiceData
invoice = record {
  vendor_name = some "Acme";
  invoice_number = some "A-1";
  invoice_date = some 100;
  due_date = some 130;
  subtotal = some (euros 100);
  tax = some (euros 20);
  total = some (euros 120);
  currency = some "EUR";
  line_items = [];
}

abbrev pub extraction_result : ExtractionResult
extraction_result = record {
  extraction = record { invoice = invoice; schema_version = "invoice_v1"; confidence = [] };
  provider_name = "mock";
  provider_trace_id = none;
}

abbrev pub stored : ℕ → StoredExtraction
stored id = record {
  document_id = id;
  extraction_result = extraction_result;
  validation_report = record { issues = [] };
}

abbrev pub document : ℕ → DocumentStatus → DocumentRecord
document id status = record {
  original_filename = "a.pdf";
  storage_key = "k";
  content_type = "application/pdf";
  workspace_id = "ws";
  submitted_by = "uploader";
  size_bytes = 10;
  id = id;
  status = status;
  created_at = 1;
  updated_at = 2;
  error_message = none;
}

abbrev pub job : ProcessingJob
job = record {
  document_id = 3;
  id = 30;
  status = ProcessingJobStatus.queued;
  attempt_count = 0;
  started_at = none;
  finished_at = none;
  error_message = none;
  provider_name = none;
  provider_trace_id = none;
  next_attempt_at = none;
  lease_token = none;
  created_at = 1;
  updated_at = 1;
}

abbrev pub held_job : ProcessingJob
held_job = record job {
  id = 31;
  document_id = 4;
  status = ProcessingJobStatus.running;
  attempt_count = 1;
  started_at = some 5;
  lease_token = some 77;
  updated_at = 5;
}

abbrev pub batch : ExportBatchRecord
batch = record {
  workspace_id = "ws";
  document_ids = 2 ∷ [];
  destination = "local";
  export_format = "csv";
  created_by = "admin";
  status = ExportBatchStatus.ready;
  name = none;
  last_run_id = none;
  id = 50;
  created_at = 3;
  updated_at = 3;
}

abbrev pub run : ExportRunRecord
run = record {
  workspace_id = "ws";
  batch_id = 51;
  document_ids = [];
  idempotency_key = "key";
  destination = "local";
  export_format = "csv";
  actor = "Administrator";
  status = succeeded;
  attempt_count = 1;
  file_name = some "f.csv";
  artifact_content = some "x";
  error_code = none;
  error_message = none;
  retryable = false;
  id = 60;
  created_at = 4;
  completed_at = some 5;
  updated_at = 5;
}

abbrev pub message : ProcessingMessage
message = record {
  job_id = 30;
  document_id = 3;
  workspace_id = "ws";
  trace_id = "t";
  schema_version = 1;
}

abbrev pub bad_delivery : MemoryDelivery
bad_delivery = record { body = malformed; delivery_count = 1 }

abbrev pub tables : Tables
tables = record {
  documents =
      (1, document 1 DocumentStatus.needs_review)
      ∷ (2, document 2 DocumentStatus.approved)
      ∷ (3, document 3 DocumentStatus.queued)
      ∷ (4, document 4 DocumentStatus.processing)
      ∷ [];
  jobs = (30, job) ∷ (31, held_job) ∷ [];
  audits = [];
  extractions = (1, stored 1) ∷ (2, stored 2) ∷ [];
  reviews = [];
  corrections = [];
  batches = batch ∷ [];
  runs = run ∷ [];
  run_keys = record { workspace_id = "ws"; idempotency_key = "key"; run_id = 60 } ∷ [];
  deliveries = [];
  work_items = [];
  plans = [];
  drafts = [];
  approvals = [];
  policy_decisions = [];
  workflow_events = [];
  agent_runs = [];
}

abbrev pub world : World
world = record {
  tables = tables;
  queue = record { enabled = true; pending = bad_delivery ∷ []; dead_letters = [] };
  stored_objects = [];
  last_timestamp = some 9;
  clock = λ n. 10 + n;
  ticks = 0;
  uuid = λ n. 1_000 + n;
  drawn = 0;
  rollback = true;
}

abbrev pub admin_context : SecurityContext
admin_context = record {
  actor = "Administrator";
  is_admin = true;
  workspace_id = "ws";
  user_id = "admin";
  role = "admin";
  trace_id = none;
}

abbrev pub reviewer_context : SecurityContext
reviewer_context = record {
  actor = "Invoice Reviewer";
  is_admin = false;
  workspace_id = "ws";
  user_id = "reviewer";
  role = "reviewer";
  trace_id = none;
}

abbrev pub policy : RetryPolicy
policy = record { max_attempts = 3; base_seconds = 5; max_seconds = 300 }

-- A parser that fails for good.
abbrev pub providers : Providers
providers = record {
  open_for_parser = λ key. pure tt;
  parser_name = "mock";
  parse = λ from. raise (provider_error "unreadable" "mock" false);
  extract_invoice = λ parsed. pure extraction_result;
  search = record {
    contains_prompt_injection = λ text. false;
    dates_in_text = λ text. [];
    decimals_in_text = λ text. [];
    searchable = λ text. text;
  };
}

abbrev pub setup : ExportSetup
setup = record {
  destinations = record { id = "local"; formats = "csv" ∷ [] } ∷ [];
  render = λ ids. pure "id";
  file_name = λ at id. "f.csv";
  run_summary = λ id. "run";
}
