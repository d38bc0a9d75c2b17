-- ===== src/Documents/JobModel.antt =====
-- The job of backend/app/documents/jobs.py: its states and its fields. A lease token, the hex text
-- of a UUID, is the number that it spells.
use ai_document_ops_system.Prelude.{ℕ, ◌==◌, Bool, Option, String}

pub data ProcessingJobStatus : Type 0 where
  queued running retrying succeeded failed dead_letter cancelled : ProcessingJobStatus

abbrev index : ProcessingJobStatus → ℕ
index queued = 0
index running = 1
index retrying = 2
index succeeded = 3
index failed = 4
index dead_letter = 5
index cancelled = 6

abbrev pub job_status_eq : ProcessingJobStatus → ProcessingJobStatus → Bool
job_status_eq a b = index a == index b

pub record ProcessingJob : Type 0 where
  pub document_id : ℕ
  pub id : ℕ
  pub status : ProcessingJobStatus
  pub attempt_count : ℕ
  pub started_at : Option ℕ
  pub finished_at : Option ℕ
  pub error_message : Option String
  pub provider_name : Option String
  pub provider_trace_id : Option String
  pub next_attempt_at : Option ℕ
  pub lease_token : Option ℕ
  pub created_at : ℕ
  pub updated_at : ℕ
