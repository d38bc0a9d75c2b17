-- ===== src/Backoffice/Execution/Outcome.antt =====
-- The second half of backend/app/backoffice/execution.py: renewing a reservation, calling the tool,
-- and recording its outcome or that it is unknown.
use ai_document_ops_system.Prelude.{
  ℕ, Bool, true, false, not, ◌&&◌, Option, none, some, String, [], ◌∷◌, str_eq, if◌then◌else◌,
}
use ai_document_ops_system.Prelude.Text.{concat_text}
use ai_document_ops_system.Prelude.TextDict.{lookup}
use ai_document_ops_system.Agent.Contracts.{AgentFailureType, AgentToolResponse, AgentRun}
use ai_document_ops_system.Backoffice.Execution.{blocked_response, first_of}
use ai_document_ops_system.Backoffice.Execution.Reserving.{
  Reservation, Reserved, held, answered, reserve_approved_execution, with_step,
}
use ai_document_ops_system.Backoffice.Models.{
  WorkItem, WorkItemStatus, ActionStep, ActionStepStatus, TaskPlan, step_status_eq,
}
use ai_document_ops_system.Backoffice.Setup.{
  Assistant, ToolExecutionRequest, attach_context, work_item_for_context, find_step, set_step,
  record_event,
}
use ai_document_ops_system.Backoffice.Store.{save_work_item, save_plan, get_plan, add_run}
use ai_document_ops_system.Core.Errors.{Error, Result, ok, err, guard, require_some, not_found}
use ai_document_ops_system.Core.Security.{SecurityContext}
use ai_document_ops_system.Runtime.{
  M, pure, raise, lift, try, now, new_uuid, transaction, ◌>>=◌, ◌>>◌,
}

-- `business_context.get(key) == value`
unfoldable pub context_is : String → String → WorkItem → Bool
unfolding lookup
context_is key value item = elim (lookup key item.business_context) [
  | none ↦ false
  | some held_value ↦ str_eq held_value value
]

unfoldable pub execution_target_matches : Assistant → WorkItem → ℕ → ℕ → Bool
unfolding context_is
execution_target_matches a item plan_id step_id =
    context_is "execution_plan_id" (a.texts.uuid_text plan_id) item
    && context_is "execution_step_id" (a.texts.uuid_text step_id) item

unfoldable pub reservation_matches : Assistant → WorkItem → Reservation → Bool
unfolding context_is execution_target_matches
reservation_matches a item r =
    context_is "execution_token" r.execution_token item
    && execution_target_matches a item r.plan_id r.step.id

-- The work item, the plan and the step of a reservation, as they are stored now.
unfoldable pub current_target :
    Reservation → SecurityContext → M (WorkItem × (TaskPlan × ActionStep))
unfolding work_item_for_context get_plan find_step
current_target r context = do
  item ← work_item_for_context r.work_item.id context
  plan ← get_plan r.plan_id
  step ← lift (require_some (find_step r.step.id plan.steps) not_found)
  pure (item, (plan, step))

-- The step is still executed under this reservation.
unfoldable pub is_active : Assistant → Reservation → WorkItem → ActionStep → Bool
unfolding reservation_matches
is_active a r item step =
    step_status_eq step.status ActionStepStatus.executing && reservation_matches a item r

unfoldable pub renew_execution_reservation : Assistant → Reservation → SecurityContext → M Bool
unfolding transaction current_target is_active context_is attach_context save_work_item
renew_execution_reservation a r context = transaction (do
  (item, (plan, step)) ← current_target r context
  if not (is_active a r item step && context_is "execution_outcome" "in_flight" item)
      then pure false
      else (do
        at ← now
        renewed ← attach_context "execution_heartbeat_at" (a.texts.iso_text at) item
        save_work_item renewed
        pure true))

unfoldable pub mark_unknown : Assistant → Reservation → SecurityContext → M (Unit {0})
unfolding transaction current_target is_active attach_context save_work_item record_event
mark_unknown a r context = transaction (do
  (item, (plan, step)) ← current_target r context
  if not (is_active a r item step) then pure tt else (do
    let waiting = let i : WorkItem = record item { status = WorkItemStatus.awaiting_human } in i
    marked ← attach_context "execution_outcome" "unknown" waiting
    save_work_item marked
    record_event a marked "action_execution_outcome_unknown" context.actor
        "The tool call did not return a confirmed outcome; manual reconciliation is required."
        none))

unfoldable pub mark_execution_outcome_unknown :
    Assistant → Reservation → SecurityContext → M AgentToolResponse
unfolding mark_unknown blocked_response
mark_execution_outcome_unknown a r context = do
  mark_unknown a r context
  pure (
      blocked_response r.step
        "The execution outcome is unknown and must be reconciled before retrying."
        AgentFailureType.tool_execution_failed)

-- `AgentRun(...)` with its one tool call.
unfoldable pub execution_run :
    Assistant → WorkItem → ℕ → AgentToolResponse → String → ℕ → ℕ → AgentRun
unfolding concat_text
execution_run a item plan_id response actor id trace_id = record {
  workspace_id = item.workspace_id;
  actor = actor;
  request =
      concat_text ("Execute controlled action for work item " ∷ a.texts.uuid_text item.id ∷ []);
  intent = "backoffice_controlled_execution";
  prompt_version = "deterministic-backoffice-v1";
  confidence = response.confidence;
  expected_tool = some response.tool_name;
  selected_tool = some response.tool_name;
  selection_reason = some "Mapped approved plan step to the controlled tool registry.";
  human_escalation_reason = response.human_escalation_reason;
  failure_type = response.failure_type;
  final_summary = some response.summary;
  work_item_id = some item.id;
  plan_id = some plan_id;
  id = id;
  tool_calls =
      record {
        tool_name = response.tool_name;
        risk = response.risk;
        status = response.status;
        summary = response.summary;
        confidence = response.confidence;
        evidence = response.evidence;
        failure_type = response.failure_type;
        human_escalation_reason = response.human_escalation_reason;
        id = trace_id;
      }
      ∷ [];
  blocked_actions = [];
}

unfoldable pub record_execution_run :
    Assistant → WorkItem → ℕ → AgentToolResponse → SecurityContext → M (Option ℕ)
unfolding execution_run add_run
record_execution_run a item plan_id response context = if not a.has_runs then pure none else (do
  id ← new_uuid
  trace_id ← new_uuid
  add_run (execution_run a item plan_id response context.actor id trace_id)
  pure (some id))

abbrev succeeded : AgentToolResponse → Bool
succeeded response = str_eq response.status "success"

abbrev finished_step : AgentToolResponse → ActionStep → ℕ → ActionStep
finished_step response step at = record step {
  status = if succeeded response then ActionStepStatus.executed else ActionStepStatus.failed;
  updated_at = at;
}

-- What is written when the tool has answered under a reservation that stands.
unfoldable pub record_response :
    Assistant
    → WorkItem
    → TaskPlan
    → ActionStep
    → AgentToolResponse
    → SecurityContext
    → M AgentToolResponse
unfolding record_execution_run attach_context save_plan save_work_item record_event set_step
record_response a item plan step response context = do
  run_id ← record_execution_run a item plan.id response context
  let done =
      let i : WorkItem = record item {
        status = if succeeded response then WorkItemStatus.resolved else WorkItemStatus.failed;
      } in
      i
  marked ←
      attach_context "execution_outcome"
        (if succeeded response then "confirmed_success" else "confirmed_failure") done
  at ← now
  let final = let i : WorkItem = record marked { updated_at = at } in i
  save_plan (with_step plan (finished_step response step at))
  save_work_item final
  record_event a final (if succeeded response then "action_executed" else "action_failed")
      context.actor response.summary run_id
  pure response

unfoldable pub finalize_reserved_execution :
    Assistant → Reservation → AgentToolResponse → SecurityContext → M AgentToolResponse
unfolding transaction current_target is_active blocked_response record_response
finalize_reserved_execution a r response context = transaction (do
  (item, (plan, step)) ← current_target r context
  if not (is_active a r item step)
      then pure (
          blocked_response step "The execution reservation is no longer active."
            AgentFailureType.invalid_workflow_state)
      else record_response a item plan step response context)

-- The result of a call as a value.
abbrev attempt : {A : Type 0} → M A → M (Result A)
attempt m = try (do r ← m; pure (ok r)) (λ e. pure (err e))

-- What follows the call of the tool.
unfoldable pub settle_call :
    Assistant → Reservation → SecurityContext → Result AgentToolResponse → M AgentToolResponse
unfolding mark_execution_outcome_unknown finalize_reserved_execution
settle_call a r context (err e) = mark_execution_outcome_unknown a r context
settle_call a r context (ok response) =
    try (finalize_reserved_execution a r response context)
      (λ e. do attempt (mark_execution_outcome_unknown a r context); raise e)

abbrev call_tool :
    Option (ToolExecutionRequest → SecurityContext → M AgentToolResponse)
    → Reservation
    → SecurityContext
    → M AgentToolResponse
call_tool none r context = raise (ai_document_ops_system.Core.Errors.Error.other "AttributeError")
call_tool (some executor) r context =
    executor
      (record {
        tool_name = r.tool_name;
        document_id = first_of r.work_item.linked_document_ids;
        confirmed = true;
      })
      context

unfoldable pub run_reserved : Assistant → SecurityContext → Reserved → M AgentToolResponse
unfolding settle_call
run_reserved a context (answered response) = pure response
run_reserved a context (held r) = do
  outcome ← attempt (call_tool a.tool_executor r context)
  settle_call a r context outcome

unfoldable pub execute_approved_step : Assistant → ℕ → ℕ → SecurityContext → M AgentToolResponse
unfolding reserve_approved_execution run_reserved
execute_approved_step a work_item_id step_id context = do
  reserved ← reserve_approved_execution a work_item_id step_id context
  run_reserved a context reserved
