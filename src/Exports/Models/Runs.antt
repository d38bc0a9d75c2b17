-- ===== src/Exports/Models/Runs.antt =====
-- The runs of backend/app/exports/models.py.
use ai_document_ops_system.Prelude.{ℕ, ◌==◌, Bool, Option, String, List}

pub data ExportRunStatus : Type 0 where
  in_progress succeeded run_failed : ExportRunStatus

abbrev index : ExportRunStatus → ℕ
index in_progress = 0
index succeeded = 1
index run_failed = 2

abbrev pub run_status_eq : ExportRunStatus → ExportRunStatus → Bool
run_status_eq a b = index a == index b

pub record ExportRunRecord : Type 0 where
  pub workspace_id : String
  pub batch_id : ℕ
  pub document_ids : List ℕ
  pub idempotency_key : String
  pub destination : String
  pub export_format : String
  pub actor : String
  pub status : ExportRunStatus
  pub attempt_count : ℕ
  pub file_name : Option String
  pub artifact_content : Option String
  pub error_code : Option String
  pub error_message : Option String
  pub retryable : Bool
  pub id : ℕ
  pub created_at : ℕ
  pub completed_at : Option ℕ
  pub updated_at : ℕ

-- An entry of `run_keys`: the run that an idempotency key of a workspace belongs to.
pub record RunKey : Type 0 where
  pub workspace_id : String
  pub idempotency_key : String
  pub run_id : ℕ
