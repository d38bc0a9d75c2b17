-- ===== src/Exports/Batches.antt =====
-- `create_batch` and `update_batch` of backend/app/exports/batch_service.py.
use ai_document_ops_system.Prelude.{
  ℕ, Bool, not, ◌||◌, Option, none, some, String, List, [], ◌∷◌, ◌==◌, str_eq, is_empty, map,
  select, if◌then◌else◌,
}
use ai_document_ops_system.Prelude.Text.{is_blank, strip}
use ai_document_ops_system.Core.Errors.{Result, ok, err, guard, export_eligibility, other}
use ai_document_ops_system.Core.Security.{SecurityContext, require_admin}
use ai_document_ops_system.Documents.Models.{DocumentRecord}
use ai_document_ops_system.Documents.Repositories.{add_audit}
use ai_document_ops_system.Documents.Workflow.{new_event}
use ai_document_ops_system.Exports.Eligibility.{
  ExportDestination, Selection, Reason, eligible_documents, workspace_documents,
}
use ai_document_ops_system.Exports.Execution.{batch_of}
use ai_document_ops_system.Exports.Models.{ExportBatchRecord, ExportBatchStatus, batch_status_eq}
use ai_document_ops_system.Exports.Repository.{save_batch}
use ai_document_ops_system.Runtime.{M, pure, lift, now, new_uuid, ◌>>=◌, ◌>>◌}

-- `tuple(dict.fromkeys(document_ids))`: the first of each.
unfoldable pub unique : List ℕ → List ℕ
unique [] = []
unique (id ∷ ids) = id ∷ select (λ other. not (other == id)) (unique ids)

-- `_require_destination`, and the first format of the destination.
unfoldable pub first_destination : List ExportDestination → Result (String × String)
first_destination [] = err export_eligibility
first_destination (d ∷ ds) = elim (d.formats) [
  | [] ↦ err (other "IndexError")
  | f ∷ fs ↦ ok (d.id, f)
]

-- The documents that are taken, and the state of the batch, by the mode of the request.
unfoldable pub choose :
    String → SecurityContext → List ℕ → Option ℕ → M (Selection × ExportBatchStatus)
unfolding workspace_documents eligible_documents
choose mode context ids exclude =
    if str_eq mode "draft"
    then (do
      selection ← workspace_documents context.workspace_id ids exclude
      pure (selection, ExportBatchStatus.draft))
    else (do
      selection ← eligible_documents context.workspace_id ids exclude
      pure (selection, ExportBatchStatus.ready))

-- `name.strip() if name and name.strip() else fallback`
unfoldable pub name_or : Option String → Option String → Option String
unfolding is_blank strip
name_or none fallback = fallback
name_or (some name) fallback = if is_blank name then fallback else some (strip name)

abbrev event_type : ExportBatchStatus → String
event_type status =
    if batch_status_eq status ExportBatchStatus.draft
    then "export_draft_saved"
    else "export_batch_created"

unfoldable pub audit_each : String → String → String → List DocumentRecord → M (Unit {0})
unfolding new_event add_audit
audit_each type actor summary [] = pure tt
audit_each type actor summary (d ∷ ds) = do
  event ← new_event d.id type actor (some d.status) (some d.status) (some summary)
  add_audit event
  audit_each type actor summary ds

pub record BatchOutcome : Type 0 where
  pub batch : ExportBatchRecord
  pub accepted : List ℕ
  pub rejected : List (ℕ × Reason)

abbrev ids_of : List DocumentRecord → List ℕ
ids_of = map (λ d. d.id)

module _ (destinations : List ExportDestination) (batch_summary : ℕ → String) where
  unfoldable pub create_batch : SecurityContext → List ℕ → String → Option String → M BatchOutcome
  unfolding require_admin first_destination unique choose name_or save_batch audit_each
  create_batch context document_ids mode name = do
    lift (require_admin context)
    (destination, export_format) ← lift (first_destination destinations)
    let unique_ids = unique document_ids
    lift (guard (not (is_empty unique_ids)) export_eligibility)
    (selection, status) ← choose mode context unique_ids none
    lift (guard (not (is_empty selection.accepted)) export_eligibility)
    t ← now
    id ← new_uuid
    batch ← save_batch (record {
      workspace_id = context.workspace_id;
      document_ids = ids_of selection.accepted;
      destination = destination;
      export_format = export_format;
      created_by = context.actor;
      status = status;
      name = name_or name none;
      last_run_id = none;
      id = id;
      created_at = t;
      updated_at = t;
    })
    audit_each (event_type status) context.actor (batch_summary id) selection.accepted
    pure (record {
      batch = batch;
      accepted = ids_of selection.accepted;
      rejected = selection.rejected;
    })

-- The batch is neither running nor completed.
unfoldable pub is_editable : ExportBatchRecord → Bool
is_editable b = not (
    batch_status_eq b.status ExportBatchStatus.running
    || batch_status_eq b.status ExportBatchStatus.completed)

unfoldable pub update_batch : SecurityContext → ℕ → List ℕ → String → Option String → M BatchOutcome
unfolding require_admin batch_of is_editable unique choose name_or save_batch
update_batch context batch_id document_ids mode name = do
  lift (require_admin context)
  current ← batch_of context.workspace_id batch_id
  lift (guard (is_editable current) export_eligibility)
  (selection, status) ← choose mode context (unique document_ids) (some current.id)
  t ← now
  batch ← save_batch (record current {
    document_ids = ids_of selection.accepted;
    status = status;
    name = name_or name current.name;
    updated_at = t;
  })
  pure (record {
    batch = batch;
    accepted = ids_of selection.accepted;
    rejected = selection.rejected;
  })
