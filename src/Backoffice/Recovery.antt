-- ===== src/Backoffice/Recovery.antt =====
-- backend/app/backoffice/recovery.py: a person states what became of an execution.
pub mod Final
use ai_document_ops_system.Prelude.{
  ℕ, ◌+◌, leb, Bool, true, false, not, ◌&&◌, Option, none, some, String, List, [], ◌∷◌, ◌==◌, any,
  str_eq, if◌then◌else◌,
}
use ai_document_ops_system.Prelude.Text.{squeeze, take_text, is_empty_text}
use ai_document_ops_system.Prelude.TextDict.{lookup}
use ai_document_ops_system.Backoffice.Execution.Reserving.{with_step}
use ai_document_ops_system.Backoffice.Execution.Outcome.{context_is, execution_target_matches}
use ai_document_ops_system.Backoffice.Models.{
  WorkItem, WorkItemStatus, ActionStep, ActionStepStatus, TaskPlan,
}
use ai_document_ops_system.Backoffice.Setup.{
  Assistant, ParsedTime, invalid, naive, instant, attach_context, work_item_for_context, find_step,
  set_step, record_event,
}
use ai_document_ops_system.Backoffice.Store.{save_work_item, save_plan, get_plan, plans_of}
use ai_document_ops_system.Core.Errors.{
  Result, ok, err, guard, require_some, not_found, backoffice_workflow,
}
use ai_document_ops_system.Core.Security.{SecurityContext}
use ai_document_ops_system.Runtime.{M, World, pure, raise, lift, now, transaction, ◌>>=◌, ◌>>◌}

-- 300 seconds.
abbrev execution_lease : ℕ
execution_lease = 300_000_000

-- The identifiers of the plans to look in first, each once.
unfoldable pub plan_ids_of : Assistant → List (Option String) → Result (List ℕ)
unfolding is_empty_text
plan_ids_of a [] = ok []
plan_ids_of a (none ∷ rest) = plan_ids_of a rest
plan_ids_of a (some text ∷ rest) =
    let later = plan_ids_of a rest in
    if is_empty_text text then later else (elim (a.texts.parse_uuid text) [
      | none ↦ err backoffice_workflow
      | some id ↦ elim later [ err e ↦ err e | ok ids ↦ ok (id ∷ without id ids) ]
    ])
  where
    without : ℕ → List ℕ → List ℕ
    without id [] = []
    without id (j ∷ js) = let kept = without id js in if j == id then kept else j ∷ kept

unfoldable pub execution_plan_ids : Assistant → WorkItem → Result (List ℕ)
unfolding plan_ids_of lookup
execution_plan_ids a item =
    plan_ids_of a
      (lookup "execution_plan_id" item.business_context ∷ current item.current_plan_id ∷ [])
  where
    current : Option ℕ → Option String
    current none = none
    current (some id) = some (a.texts.uuid_text id)

abbrev has_step : ℕ → TaskPlan → Bool
has_step step_id plan = any (λ s. s.id == step_id) plan.steps

unfoldable pub first_with_step : ℕ → List TaskPlan → Result TaskPlan
first_with_step step_id [] = err not_found
first_with_step step_id (p ∷ ps) = if has_step step_id p then ok p else first_with_step step_id ps

unfoldable pub search_plans : WorkItem → ℕ → List ℕ → M TaskPlan
unfolding get_plan plans_of first_with_step
search_plans item step_id [] = do
  plans ← plans_of item.workspace_id item.id
  lift (first_with_step step_id plans)
search_plans item step_id (plan_id ∷ ids) = do
  plan ← get_plan plan_id
  lift (
      guard (str_eq plan.workspace_id item.workspace_id && plan.work_item_id == item.id)
        backoffice_workflow)
  if has_step step_id plan then pure plan else search_plans item step_id ids

unfoldable pub plan_containing_step : Assistant → WorkItem → ℕ → M TaskPlan
unfolding execution_plan_ids search_plans
plan_containing_step a item step_id = do
  ids ← lift (execution_plan_ids a item)
  search_plans item step_id ids

-- The heartbeat is at least a lease old.
abbrev is_old : ℕ → ParsedTime → Bool
is_old at invalid = false
is_old at naive = false
is_old at (instant heartbeat) = leb (heartbeat + execution_lease) at

unfoldable pub lapsed : Assistant → WorkItem → M Bool
unfolding lookup is_empty_text
lapsed a item = elim (lookup "execution_heartbeat_at" item.business_context) [
  | none ↦ pure true
  | some text ↦ if is_empty_text text then pure true else elim (a.texts.parse_iso text) [
    | invalid ↦ pure false
    | naive ↦ pure false
    | instant heartbeat ↦ do at ← now; pure (is_old at (instant heartbeat))
  ]
]

-- `_execution_is_reconcilable`
unfoldable pub execution_is_reconcilable : Assistant → WorkItem → M Bool
unfolding context_is lapsed
execution_is_reconcilable a item =
    if context_is "execution_outcome" "unknown" item
    then pure true
    else if not (context_is "execution_outcome" "in_flight" item)
    then pure false
    else lapsed a item

unfoldable pub record_statement :
    Assistant → WorkItem → TaskPlan → ActionStep → SecurityContext → Bool → String → M WorkItem
unfolding execution_target_matches execution_is_reconcilable attach_context save_plan save_work_item
    record_event set_step
record_statement a item plan step context succeeded summary = do
  lift (guard (execution_target_matches a item plan.id step.id) backoffice_workflow)
  reconcilable ← execution_is_reconcilable a item
  lift (guard reconcilable backoffice_workflow)
  at ← now
  let done =
      let i : WorkItem = record item {
        status = if succeeded then WorkItemStatus.resolved else WorkItemStatus.failed;
      } in
      i
  marked ←
      attach_context "execution_outcome"
        (if succeeded then "confirmed_success" else "confirmed_failure") done
  let final = let i : WorkItem = record marked { updated_at = at } in i
  save_plan (
      with_step plan (record step {
        status = if succeeded then ActionStepStatus.executed else ActionStepStatus.failed;
        updated_at = at;
      }))
  save_work_item final
  record_event a final
      (if succeeded
        then "action_execution_reconciled_succeeded"
        else "action_execution_reconciled_failed")
      context.actor summary none
  pure final

-- By the state of the step: an outcome that is on record stands.
unfoldable pub reconcile_step :
    Assistant
    → WorkItem
    → TaskPlan
    → ActionStep
    → SecurityContext
    → Bool
    → String
    → ActionStepStatus
    → M WorkItem
unfolding record_statement
reconcile_step a item plan step context succeeded summary ActionStepStatus.executed =
    if succeeded then pure item else raise backoffice_workflow
reconcile_step a item plan step context succeeded summary ActionStepStatus.failed =
    if succeeded then raise backoffice_workflow else pure item
reconcile_step a item plan step context succeeded summary ActionStepStatus.executing =
    record_statement a item plan step context succeeded summary
reconcile_step a item plan step context succeeded summary _ = raise backoffice_workflow

unfoldable pub reconcile_execution :
    Assistant → ℕ → ℕ → SecurityContext → Bool → String → M WorkItem
unfolding transaction squeeze take_text is_empty_text work_item_for_context plan_containing_step
    find_step reconcile_step
reconcile_execution a work_item_id step_id context succeeded summary = do
  let normalized = take_text 500 (squeeze summary)
  lift (guard (not (is_empty_text normalized)) backoffice_workflow)
  transaction (do
    item ← work_item_for_context work_item_id context
    plan ← plan_containing_step a item step_id
    step ← lift (require_some (find_step step_id plan.steps) not_found)
    reconcile_step a item plan step context succeeded normalized step.status)
