-- ===== src/Backoffice/Service.antt =====
-- The commands on work items of backend/app/backoffice/services.py.
pub mod Replay
use ai_document_ops_system.Prelude.{
  ℕ, Bool, true, false, not, Option, none, some, is_none, String, List, [], ◌∷◌, str_eq, select,
  if◌then◌else◌,
}
use ai_document_ops_system.Prelude.Text.{
  concat_text, join_text, strip, is_empty_text, is_blank, show_ℕ, text_or,
}
use ai_document_ops_system.Prelude.TextDict.{insert}
use ai_document_ops_system.Backoffice.Execution.Outcome.{context_is}
use ai_document_ops_system.Backoffice.Models.{
  WorkItem, WorkItemSourceType, WorkItemPriority, WorkItemStatus, WorkType,
}
use ai_document_ops_system.Backoffice.Planner.{classify}
use ai_document_ops_system.Backoffice.Planning.{
  normalized_key, require_matching_fingerprint, under_key,
}
use ai_document_ops_system.Backoffice.Setup.{
  Assistant, WorkItemIdentity, attach_context, work_item_for_context, record_event,
}
use ai_document_ops_system.Backoffice.Store.{save_work_item, get_item_by_key}
use ai_document_ops_system.Core.Errors.{Result, ok, err}
use ai_document_ops_system.Core.Security.{SecurityContext}
use ai_document_ops_system.Runtime.{M, World, pure, lift, now, new_uuid, transaction, ◌>>=◌, ◌>>◌}

unfoldable pub classify_if : Option WorkType → WorkItem → M WorkItem
unfolding classify
classify_if none item = pure item
classify_if (some work_type) item = classify work_type item

-- `WorkItem(...)`
unfoldable pub new_work_item :
    SecurityContext → WorkItemIdentity → Option String → String → M WorkItem
new_work_item context request key fingerprint = do
  id ← new_uuid
  created_at ← now
  updated_at ← now
  pure (record {
    workspace_id = context.workspace_id;
    title = request.title;
    source_type = WorkItemSourceType.document;
    work_type = request.work_type;
    priority = WorkItemPriority.normal;
    status = WorkItemStatus.new;
    linked_document_ids = request.linked_document_ids;
    business_context = request.business_context;
    current_plan_id = none;
    idempotency_key = key;
    idempotency_fingerprint = under_key key fingerprint;
    id = id;
    created_at = created_at;
    updated_at = updated_at;
  })

unfoldable pub create_or_replay :
    Assistant
    → SecurityContext
    → WorkItemIdentity
    → Option String
    → String
    → Option WorkItem
    → M WorkItem
unfolding require_matching_fingerprint new_work_item classify_if save_work_item record_event
    concat_text
create_or_replay a context request key fingerprint (some existing) = do
  lift (require_matching_fingerprint existing.idempotency_fingerprint fingerprint)
  pure existing
create_or_replay a context request key fingerprint none = do
  item ← new_work_item context request key fingerprint
  classified ← classify_if request.work_type item
  saved ← save_work_item classified
  record_event a saved "work_item_created" context.actor
      (concat_text ("Work item created: " ∷ saved.title ∷ [])) none
  pure saved

unfoldable pub existing_item : SecurityContext → Option String → M (Option WorkItem)
unfolding get_item_by_key
existing_item context none = pure none
existing_item context (some key) = get_item_by_key context.workspace_id key

unfoldable pub create_work_item :
    Assistant → SecurityContext → WorkItemIdentity → Option String → M WorkItem
unfolding normalized_key transaction existing_item create_or_replay
create_work_item a context request idempotency_key = do
  key ← lift (normalized_key idempotency_key)
  transaction (do
    existing ← existing_item context key
    create_or_replay a context request key (a.work_item_fingerprint request) existing)

-- `dict.fromkeys(...)` on texts: the first of each.
unfoldable pub unique_texts : List String → List String
unique_texts [] = []
unique_texts (t ∷ ts) = t ∷ select (λ u. not (str_eq u t)) (unique_texts ts)

unfoldable pub stripped_tags : List String → List String
unfolding is_blank strip
stripped_tags [] = []
stripped_tags (t ∷ ts) = let rest = stripped_tags ts in if is_blank t then rest else strip t ∷ rest

pub record WorkItemChanges : Type 0 where
  pub title : Option String
  pub priority : Option WorkItemPriority
  pub assignee : Option String
  pub requested_outcome : Option String
  pub tags : Option (List String)

-- An entry of the context, if there is a value for it.
abbrev entry : String → Option String → List (String × String) → List (String × String)
entry key none context = context
entry key (some value) context = insert key value context

abbrev stripped : Option String → Option String
stripped none = none
stripped (some value) = some (strip value)

abbrev joined_tags : Option (List String) → Option String
joined_tags none = none
joined_tags (some tags) = some (join_text "," (unique_texts (stripped_tags tags)))

abbrev title_or : Option String → String → String
title_or none title = title
title_or (some new_title) title = text_or (strip new_title) title

abbrev priority_or : Option WorkItemPriority → WorkItemPriority → WorkItemPriority
priority_or none priority = priority
priority_or (some p) priority = p

unfoldable pub update_work_item : Assistant → ℕ → SecurityContext → WorkItemChanges → M WorkItem
unfolding transaction work_item_for_context strip text_or insert join_text unique_texts
    stripped_tags save_work_item record_event
update_work_item a work_item_id context changes = transaction (do
  item ← work_item_for_context work_item_id context
  at ← now
  saved ← save_work_item (record item {
    title = title_or changes.title item.title;
    priority = priority_or changes.priority item.priority;
    business_context = entry "tags" (joined_tags changes.tags) (
        entry "requested_outcome" (stripped changes.requested_outcome)
          (entry "assignee" (stripped changes.assignee) item.business_context));
    updated_at = at;
  })
  record_event a saved "work_item_updated" context.actor
      "Work item ownership and operational metadata updated." none
  pure saved)

abbrev awaiting : WorkItem → WorkItem
awaiting item = record item { status = WorkItemStatus.awaiting_human }

unfoldable pub request_correction : Assistant → ℕ → SecurityContext → String → M WorkItem
unfolding transaction work_item_for_context attach_context strip save_work_item record_event
request_correction a work_item_id context notes = transaction (do
  item ← work_item_for_context work_item_id context
  i1 ← attach_context "correction_state" "requested" item
  i2 ← attach_context "correction_reason" (strip notes) i1
  i3 ← attach_context "correction_requested_by" context.actor i2
  at ← now
  i4 ← attach_context "correction_requested_at" (a.texts.iso_text at) i3
  let waiting = awaiting i4
  save_work_item waiting
  record_event a waiting "correction_requested" context.actor notes none
  pure waiting)

unfoldable pub submit_correction : Assistant → ℕ → SecurityContext → ℕ → M WorkItem
unfolding transaction work_item_for_context context_is attach_context show_ℕ save_work_item
    record_event concat_text
submit_correction a work_item_id context change_count = transaction (do
  item ← work_item_for_context work_item_id context
  if not (context_is "correction_state" "requested" item) then pure item else (do
    i1 ← attach_context "correction_state" "submitted" item
    i2 ← attach_context "correction_submitted_by" context.actor i1
    i3 ← attach_context "correction_change_count" (show_ℕ change_count) i2
    saved ← save_work_item (awaiting i3)
    record_event a saved "correction_submitted" context.actor
        (concat_text
          ("Corrected invoice submitted with " ∷ show_ℕ change_count ∷ " changed fields." ∷ []))
        none
    pure saved))

unfoldable pub escalate_work_item : Assistant → ℕ → SecurityContext → String → M WorkItem
unfolding transaction work_item_for_context context_is attach_context save_work_item record_event
escalate_work_item a work_item_id context reason = transaction (do
  item ← work_item_for_context work_item_id context
  noted ←
      (if context_is "correction_state" "requested" item
        then attach_context "correction_state" "escalated" item
        else pure item)
  let waiting = awaiting noted
  save_work_item waiting
  record_event a waiting "workflow_escalated" context.actor reason none
  pure waiting)
