-- ===== src/Documents/Reading.antt =====
-- The calls of backend/app/documents that write to no table.
use ai_document_ops_system.Prelude.{ℕ, String}
use ai_document_ops_system.Documents.JobStore
use ai_document_ops_system.Documents.Repositories.{get_document, get_extraction}
use ai_document_ops_system.Documents.Workflow.{workspace_document}
use ai_document_ops_system.Runtime.Effects.{Reads, reads_rules, Reads-bind}

pub Reads-get_document : (id : ℕ) → Reads (get_document id)
unfolding get_document
Reads-get_document id = search reads_rules

pub Reads-get_extraction : (id : ℕ) → Reads (get_extraction id)
unfolding get_extraction
Reads-get_extraction id = search reads_rules

pub Reads-workspace_document : (id : ℕ) (ws : String) → Reads (workspace_document id ws)
unfolding workspace_document
Reads-workspace_document id ws = search (reads_rules, Reads-get_document)

pub Reads-get_latest_for_document : (id : ℕ) → Reads (JobStore.get_latest_for_document id)
unfolding JobStore.get_latest_for_document
Reads-get_latest_for_document id = search reads_rules

pub ruleset document_reads = (
  reads_rules, Reads-get_document, Reads-get_extraction, Reads-workspace_document,
  Reads-get_latest_for_document,
)
