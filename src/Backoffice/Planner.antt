-- ===== src/Backoffice/Planner.antt =====
-- backend/app/backoffice/planner.py: the kind of a work item, and the steps of a plan, every one
-- judged by the policy.
pub mod Playbooks
pub mod Guarded
use ai_document_ops_system.Prelude.{
  ℕ, Bool, true, false, not, ◌&&◌, ◌||◌, Option, none, some, is_some, is_none, String, List, [],
  ◌∷◌, ◌++◌, map, is_empty, if◌then◌else◌,
}
use ai_document_ops_system.Prelude.Text.{concat_text, join_text, contains, strip}
use ai_document_ops_system.Backoffice.Models.{
  WorkItem, WorkItemStatus, WorkType, ActionStep, ActionStepStatus, TaskPlan,
}
use ai_document_ops_system.Backoffice.Policy.{
  ActionType, inspect_queue, explain_document, recommend_review, draft_accounting_note,
  draft_vendor_message, export_approved_invoice, escalate_to_human, PolicyDecision, rule_of,
  decide_action,
}
use ai_document_ops_system.Backoffice.Setup.{Texts, PlanningInput}
use ai_document_ops_system.Core.Errors.{Result, ok, err}
use ai_document_ops_system.Core.Security.{SecurityContext}
use ai_document_ops_system.Runtime.{M, World, pure, now, new_uuid, ◌>>=◌, ◌>>◌}

abbrev pub planner_version : String
planner_version = "deterministic-backoffice-v1"

abbrev or_empty : Option String → String
or_empty none = ""
or_empty (some t) = t

abbrev second : String × String → String
second entry = entry.1

unfoldable pub classify_work_type : Texts → WorkItem → PlanningInput → WorkType
unfolding contains concat_text join_text strip
classify_work_type texts item inputs =
    let requested = texts.lower (strip (or_empty inputs.requested_outcome)) in
    let context_values = texts.lower (join_text " " (map second item.business_context)) in
    let combined = concat_text (requested ∷ " " ∷ context_values ∷ []) in
    if not (is_empty inputs.missing_fields)
      || contains "missing" combined
      || contains "follow" combined
    then WorkType.vendor_follow_up
    else if contains "export" combined
    then WorkType.invoice_export
    else if contains "accounting note" combined || contains "note" combined
    then WorkType.accounting_note
    else if not (is_empty item.linked_document_ids) || contains "invoice" combined
    then WorkType.invoice_review
    else WorkType.insufficient_evidence

-- `WorkItem.classify`, without a priority.
unfoldable pub classify : WorkType → WorkItem → M WorkItem
classify work_type item = do
  at ← now
  pure (record item {
    work_type = some work_type;
    status = WorkItemStatus.classified;
    updated_at = at;
  })

-- `WorkItem.set_current_plan`
unfoldable pub set_current_plan : ℕ → WorkItem → M WorkItem
set_current_plan plan_id item = do
  at ← now
  pure (record item {
    current_plan_id = some plan_id;
    status = WorkItemStatus.planning;
    updated_at = at;
  })

-- `_base_step`
unfoldable pub base_step : ActionType → String → String → M ActionStep
unfolding rule_of
base_step action why_this why_not = do
  id ← new_uuid
  created_at ← now
  updated_at ← now
  pure (record {
    action_type = action;
    risk_level = (rule_of action).risk_level;
    tool_name = none;
    requires_approval = (rule_of action).requires_confirmation;
    status = ActionStepStatus.planned;
    why_this = some why_this;
    why_not = some why_not;
    id = id;
    created_at = created_at;
    updated_at = updated_at;
  })

-- `ActionStep.block`
unfoldable pub block_step : String → ActionStep → M ActionStep
block_step reason step = do
  at ← now
  pure (record step { status = ActionStepStatus.blocked; why_not = some reason; updated_at = at })

-- What the decision of the policy makes of a step.
unfoldable pub judged_step : PolicyDecision → ActionStep → M ActionStep
unfolding block_step
judged_step decision step =
    if decision.requires_confirmation
    then (do
      at ← now
      pure (record step {
        requires_approval = true;
        status = ActionStepStatus.waiting_for_approval;
        why_not = some decision.reason;
        updated_at = at;
      }))
    else if not decision.allowed
    then block_step decision.reason (record step { risk_level = decision.risk_level })
    else pure (record step { risk_level = decision.risk_level })

-- `_step`
unfoldable pub new_step :
    WorkItem → SecurityContext → ActionType → Bool → String → String → M ActionStep
unfolding decide_action base_step judged_step
new_step item context action evidence_sufficient why_this why_not = do
  let decision =
      decide_action
        (record {
          workspace_id = item.workspace_id;
          work_item_id = item.id;
          action = action;
          action_step_id = none;
          target_workspace_id = none;
          evidence_sufficient = evidence_sufficient;
          confirmed = false;
        })
        context
  step ← base_step action why_this why_not
  judged_step decision step

-- `TaskPlan.add_step`
unfoldable pub add_step : ActionStep → TaskPlan → M TaskPlan
add_step step plan = do
  at ← now
  pure (record plan { steps = plan.steps ++ step ∷ []; updated_at = at })

-- A step by `_step`, added to the plan.
unfoldable pub add_new_step :
    WorkItem → SecurityContext → ActionType → Bool → String → String → TaskPlan → M TaskPlan
unfolding new_step add_step
add_new_step item context action evidence_sufficient why_this why_not plan = do
  step ← new_step item context action evidence_sufficient why_this why_not
  add_step step plan
