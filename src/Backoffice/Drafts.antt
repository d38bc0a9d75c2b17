-- ===== src/Backoffice/Drafts.antt =====
-- Drafts of backend/app/backoffice/planning_service.py.
use ai_document_ops_system.Prelude.{
  ℕ, Bool, true, false, not, ◌&&◌, Option, none, some, String, [], ◌∷◌, ◌==◌, str_eq,
}
use ai_document_ops_system.Prelude.Text.{concat_text, strip}
use ai_document_ops_system.Backoffice.Models.{
  WorkItem, ActionStep, ActionStepStatus, step_status_eq, ActionDraft, DraftType, DraftStatus,
}
use ai_document_ops_system.Backoffice.Policy.{
  ActionType, draft_accounting_note, draft_vendor_message, export_approved_invoice,
}
use ai_document_ops_system.Backoffice.Setup.{Assistant, work_item_for_context, record_event}
use ai_document_ops_system.Backoffice.Store.{save_draft, get_draft}
use ai_document_ops_system.Core.Errors.{guard, require_some, not_found, backoffice_workflow}
use ai_document_ops_system.Core.Security.{SecurityContext}
use ai_document_ops_system.Runtime.{M, pure, lift, now, new_uuid, transaction, ◌>>=◌, ◌>>◌}

-- `DRAFT_TYPE_MAP.get`
unfoldable pub draft_type_of : ActionType → Option DraftType
draft_type_of draft_accounting_note = some DraftType.accounting_note
draft_type_of draft_vendor_message = some DraftType.vendor_message
draft_type_of export_approved_invoice = some DraftType.export_preview
draft_type_of _ = none

-- `DraftType.value`
unfoldable pub draft_text : DraftType → String
draft_text DraftType.accounting_note = "accounting_note"
draft_text DraftType.vendor_message = "vendor_message"
draft_text DraftType.export_preview = "export_preview"

abbrev is_drafted : DraftStatus → Bool
is_drafted DraftStatus.drafted = true
is_drafted _ = false

abbrev preview_title : DraftType → String
preview_title DraftType.accounting_note = "Accounting note draft for "
preview_title DraftType.vendor_message = "Vendor follow-up draft for "
preview_title DraftType.export_preview = "Export preview for "

abbrev or_empty : Option String → String
or_empty none = ""
or_empty (some t) = t

unfoldable pub draft_preview : WorkItem → ActionStep → DraftType → String
unfolding strip concat_text
draft_preview item step type =
    strip (concat_text (preview_title type ∷ item.title ∷ ": " ∷ or_empty step.why_this ∷ []))

unfoldable pub new_draft : WorkItem → Option ℕ → DraftType → String → M ActionDraft
new_draft item step_id type preview = do
  id ← new_uuid
  created_at ← now
  updated_at ← now
  pure (record {
    workspace_id = item.workspace_id;
    work_item_id = item.id;
    draft_type = type;
    preview_content = preview;
    action_step_id = step_id;
    status = DraftStatus.drafted;
    id = id;
    created_at = created_at;
    updated_at = updated_at;
  })

unfoldable pub create_draft_for_step : ℕ → ActionStep → SecurityContext → M ActionDraft
unfolding work_item_for_context draft_type_of draft_preview new_draft save_draft
create_draft_for_step work_item_id step context = do
  item ← work_item_for_context work_item_id context
  lift (guard (not (step_status_eq step.status ActionStepStatus.blocked)) backoffice_workflow)
  type ← lift (require_some (draft_type_of step.action_type) backoffice_workflow)
  draft ← new_draft item (some step.id) type (draft_preview item step type)
  save_draft draft

-- The draft, if it belongs to the work item.
unfoldable pub draft_of_item : WorkItem → ℕ → SecurityContext → M ActionDraft
unfolding get_draft
draft_of_item item draft_id context = do
  draft ← get_draft draft_id
  lift (
      guard (str_eq draft.workspace_id context.workspace_id && draft.work_item_id == item.id)
        not_found)
  pure draft

unfoldable pub edit_draft : Assistant → ℕ → ℕ → SecurityContext → String → M ActionDraft
unfolding transaction work_item_for_context draft_of_item strip save_draft record_event concat_text
    draft_text
edit_draft a work_item_id draft_id context preview_content = transaction (do
  item ← work_item_for_context work_item_id context
  draft ← draft_of_item item draft_id context
  lift (guard (is_drafted draft.status) backoffice_workflow)
  at ← now
  saved ← save_draft (record draft { preview_content = strip preview_content; updated_at = at })
  record_event a item "draft_edited" context.actor
      (concat_text ("Draft edited: " ∷ draft_text saved.draft_type ∷ "." ∷ [])) none
  pure saved)

unfoldable pub regenerate_draft : Assistant → ℕ → ℕ → SecurityContext → M ActionDraft
unfolding transaction work_item_for_context draft_of_item new_draft save_draft record_event
    concat_text draft_text
regenerate_draft a work_item_id draft_id context = transaction (do
  item ← work_item_for_context work_item_id context
  previous ← draft_of_item item draft_id context
  regenerated ← new_draft item previous.action_step_id previous.draft_type (
      concat_text
        (previous.preview_content ∷ "\n\nRegenerated for current work-item evidence." ∷ []))
  saved ← save_draft regenerated
  record_event a item "draft_regenerated" context.actor
      (concat_text ("New draft version generated: " ∷ draft_text saved.draft_type ∷ "." ∷ [])) none
  pure saved)
