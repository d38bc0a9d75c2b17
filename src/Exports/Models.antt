-- ===== src/Exports/Models.antt =====
-- backend/app/exports/models.py
mod Runs
pub use Runs.*
use ai_document_ops_system.Prelude.{ℕ, ◌==◌, Bool, Option, String, List}

pub data ExportBatchStatus : Type 0 where
  draft ready running completed failed : ExportBatchStatus

abbrev index : ExportBatchStatus → ℕ
index draft = 0
index ready = 1
index running = 2
index completed = 3
index failed = 4

abbrev pub batch_status_eq : ExportBatchStatus → ExportBatchStatus → Bool
batch_status_eq a b = index a == index b

pub record ExportBatchRecord : Type 0 where
  pub workspace_id : String
  pub document_ids : List ℕ
  pub destination : String
  pub export_format : String
  pub created_by : String
  pub status : ExportBatchStatus
  pub name : Option String
  pub last_run_id : Option ℕ
  pub id : ℕ
  pub created_at : ℕ
  pub updated_at : ℕ
