-- ===== src/Backoffice/Planning/Requests.antt =====
-- `plan_work_item` of backend/app/backoffice/planning_service.py: a new plan or the one of its key.
use ai_document_ops_system.Prelude.{ℕ, Option, none, some, String, if◌then◌else◌}
use ai_document_ops_system.Prelude.Text.{is_empty_text}
use ai_document_ops_system.Backoffice.Models.{WorkItem, WorkItemStatus, TaskPlan}
use ai_document_ops_system.Backoffice.Setup.{
  Assistant, PlanningInput, work_item_for_context, record_event,
}
use ai_document_ops_system.Backoffice.Store.{save_work_item, get_plan_by_key}
use ai_document_ops_system.Core.Security.{SecurityContext}
use ai_document_ops_system.Runtime.{M, pure, lift, transaction, ◌>>=◌, ◌>>◌}
use ai_document_ops_system.Backoffice.Planning.{
  normalized_key, require_matching_fingerprint, BackofficePlanResult, plan_result_for,
  require_no_pending_execution, generate_plan, create_records,
}

-- `_record_escalation`: the changed work item.
unfoldable pub record_escalation :
    Assistant → WorkItem → Option String → SecurityContext → M WorkItem
unfolding save_work_item record_event is_empty_text
record_escalation a item none context = pure item
record_escalation a item (some reason) context = if is_empty_text reason then pure item else (do
  let waiting = let i : WorkItem = record item { status = WorkItemStatus.awaiting_human } in i
  save_work_item waiting
  record_event a waiting "workflow_escalated" context.actor reason none
  pure waiting)

unfoldable pub plan_new :
    Assistant
    → WorkItem
    → SecurityContext
    → PlanningInput
    → Option String
    → String
    → M BackofficePlanResult
unfolding require_no_pending_execution generate_plan create_records record_escalation
plan_new a item context inputs key fingerprint = do
  lift (require_no_pending_execution item)
  (plan, planned) ← generate_plan a item context inputs key fingerprint
  (drafts, approvals) ← create_records a planned context plan.steps
  final ← record_escalation a planned plan.escalation_reason context
  pure (record {
    work_item = final;
    plan_id = plan.id;
    created_draft_ids = drafts;
    pending_approval_ids = approvals;
  })

-- A plan that was made under the key is given again, for the same request.
unfoldable pub plan_or_replay :
    Assistant
    → WorkItem
    → SecurityContext
    → PlanningInput
    → Option String
    → String
    → Option TaskPlan
    → M BackofficePlanResult
unfolding require_matching_fingerprint plan_result_for plan_new
plan_or_replay a item context inputs key fingerprint none =
    plan_new a item context inputs key fingerprint
plan_or_replay a item context inputs key fingerprint (some existing) = do
  lift (require_matching_fingerprint existing.idempotency_fingerprint fingerprint)
  plan_result_for item existing context.workspace_id

unfoldable pub existing_plan : WorkItem → SecurityContext → Option String → M (Option TaskPlan)
unfolding get_plan_by_key
existing_plan item context none = pure none
existing_plan item context (some key) = get_plan_by_key context.workspace_id item.id key

-- `plan_work_item`, the inputs given.
unfoldable pub plan_work_item :
    Assistant → ℕ → SecurityContext → PlanningInput → Option String → M BackofficePlanResult
unfolding normalized_key transaction work_item_for_context existing_plan plan_or_replay
plan_work_item a work_item_id context inputs idempotency_key = do
  key ← lift (normalized_key idempotency_key)
  transaction (do
    item ← work_item_for_context work_item_id context
    existing ← existing_plan item context key
    plan_or_replay a item context inputs key (a.planning_fingerprint inputs context) existing)
