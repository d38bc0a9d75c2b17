-- ===== src/Documents/Models.antt =====
-- backend/app/documents/models.py. A UUID is a number, a time is a number of microseconds.
use ai_document_ops_system.Prelude.{ℕ, Option, String}
use ai_document_ops_system.Documents.Status.{DocumentStatus}

pub record DocumentRecord : Type 0 where
  pub original_filename : String
  pub storage_key : String
  pub content_type : String
  pub workspace_id : String
  pub submitted_by : String
  pub size_bytes : ℕ
  pub id : ℕ
  pub status : DocumentStatus
  pub created_at : ℕ
  pub updated_at : ℕ
  pub error_message : Option String

pub record AuditEvent : Type 0 where
  pub document_id : ℕ
  pub event_type : String
  pub actor : String
  pub old_status : Option DocumentStatus
  pub new_status : Option DocumentStatus
  pub payload_summary : Option String
  pub id : ℕ
  pub created_at : ℕ

pub record ReviewTask : Type 0 where
  pub document_id : ℕ
  pub status : String
  pub reviewer_notes : Option String
  pub assigned_to : Option String
  pub reviewed_by : Option String
  pub reviewed_at : Option ℕ
  pub id : ℕ
  pub created_at : ℕ
  pub updated_at : ℕ
