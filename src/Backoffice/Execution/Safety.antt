-- ===== src/Backoffice/Execution/Safety.antt =====
-- When a step may be executed, and what an execution that has lost its reservation may write.
use ai_document_ops_system.Prelude.{
  ℕ, Bool, true, false, ◌||◌, some, str_eq, ◌≡◌, refl, arith, Option-cases, Bool-cases, ◌⊎◌, inl,
  inr,
}
use ai_document_ops_system.Prelude.Dict.{lookup}
use ai_document_ops_system.Agent.Contracts.{AgentToolResponse}
use ai_document_ops_system.Backoffice.Execution.{
  answer, execution_tool_or_error, tool_by_status, executed_response, blocked_response,
}
use ai_document_ops_system.Backoffice.Execution.Reserving.{
  Reservation, reserve_approved_execution, reserve_chosen, current_plan,
}
use ai_document_ops_system.Backoffice.Execution.Outcome.{
  execute_approved_step, run_reserved, finalize_reserved_execution, renew_execution_reservation,
  mark_unknown, current_target, is_active, reservation_matches, context_is,
}
use ai_document_ops_system.Backoffice.Models.{
  WorkItem, TaskPlan, ActionStep, ActionStepStatus, step_status_eq,
}
use ai_document_ops_system.Backoffice.Setup.{Assistant, find_step, work_item_for_context}
use ai_document_ops_system.Backoffice.Store.{get_work_item, get_plan}
use ai_document_ops_system.Core.Errors.{Error, ok, err, not_found}
use ai_document_ops_system.Core.Security.{SecurityContext}
use ai_document_ops_system.Runtime.{World, Tables, transaction}
use ai_document_ops_system.Runtime.Refuses.{closed}
use ai_document_ops_system.Runtime.Yields.{OfOk, Returned}

-- The step with the identifier in the current plan of the work item, which is of the caller's
-- workspace.
pub record IsTarget (work_item_id step_id : ℕ) (context : SecurityContext) (t : Tables)
    (item : WorkItem) (plan : TaskPlan) (step : ActionStep) : Type 0 where
  pub found_item : lookup work_item_id t.work_items ≡ some item
  pub same_workspace : str_eq item.workspace_id context.workspace_id ≡ true
  pub plan_id : ℕ
  pub is_current : item.current_plan_id ≡ some plan_id
  pub found_plan : lookup plan_id t.plans ≡ some plan
  pub found_step : find_step step_id plan.steps ≡ some step

-- The step runs, has run, or must not run.
unfoldable pub is_settled : ActionStepStatus → Bool
is_settled s =
    step_status_eq s ActionStepStatus.executing
    || step_status_eq s ActionStepStatus.executed
    || step_status_eq s ActionStepStatus.blocked
    || step_status_eq s ActionStepStatus.failed

settled_answer :
    (a : Assistant) (item : WorkItem) (step : ActionStep) (s : ActionStepStatus) (w : World)
    → is_settled s ≡ true
    → (r : AgentToolResponse) × (tool_by_status a item step s w ≡ (ok (answer r), w))
      × (str_eq r.status "success" ≡ step_status_eq s ActionStepStatus.executed)
unfolding is_settled tool_by_status executed_response blocked_response
settled_answer a item step ActionStepStatus.executing w h = (_, refl, refl)
settled_answer a item step ActionStepStatus.executed w h = (_, refl, refl)
settled_answer a item step ActionStepStatus.blocked w h = (_, refl, refl)
settled_answer a item step ActionStepStatus.failed w h = (_, refl, refl)
settled_answer a item step ActionStepStatus.planned w h = cc
settled_answer a item step ActionStepStatus.waiting_for_approval w h = cc
settled_answer a item step ActionStepStatus.approved w h = cc

-- A step that is being executed, was executed, failed or is blocked is not executed: the request
-- returns a response that says `success` exactly if the step was executed before, and the whole
-- world is as before, so the tool is not called.
pub settled_not_run :
    (a : Assistant) (work_item_id step_id : ℕ) (context : SecurityContext) (w : World)
    (item : WorkItem) (plan : TaskPlan) (step : ActionStep)
    → IsTarget work_item_id step_id context w.tables item plan step
    → is_settled step.status ≡ true
    → ((execute_approved_step a work_item_id step_id context w).1 ≡ w)
      × Returned
          (λ r. str_eq r.status "success" ≡ step_status_eq step.status ActionStepStatus.executed)
          (execute_approved_step a work_item_id step_id context w).0
unfolding execute_approved_step reserve_approved_execution transaction work_item_for_context
    get_work_item current_plan get_plan execution_tool_or_error reserve_chosen run_reserved Returned
settled_not_run a work_item_id step_id context w item plan step t h =
    let (r, answered_by, same) = settled_answer a item step step.status w h in
    rw (t.found_item, t.same_workspace, t.is_current, t.found_plan, t.found_step, answered_by)
      (refl, same)

target_cases :
    (r : Reservation) (context : SecurityContext) (w : World) (item : WorkItem)
    → lookup r.work_item.id w.tables.work_items ≡ some item
    → ((e : Error) × (current_target r context w ≡ (err e, w)))
      ⊎ ((plan : TaskPlan) × (step : ActionStep) × (current_target r context w
            ≡ (ok (item, (plan, step)), w)))
unfolding current_target work_item_for_context get_work_item get_plan
target_cases r context w item found =
    elim (Bool-cases (str_eq item.workspace_id context.workspace_id)) [
      | inr other ↦ inl (not_found, rw (found, other) refl)
      | inl same ↦ elim (Option-cases (lookup r.plan_id w.tables.plans)) [
        | inl no_plan ↦ inl (not_found, rw (found, same, no_plan) refl)
        | inr (plan, has_plan) ↦ elim (Option-cases (find_step r.step.id plan.steps)) [
          | inl no_step ↦ inl (not_found, rw (found, same, has_plan, no_step) refl)
          | inr (step, has_step) ↦ inr (plan, step, rw (found, same, has_plan, has_step) refl)
        ]
      ]
    ]

not_active :
    (a : Assistant) (r : Reservation) (item : WorkItem) (step : ActionStep)
    → context_is "execution_token" r.execution_token item ≡ false
    → is_active a r item step ≡ false
unfolding is_active reservation_matches
not_active a r item step lost = ground (arith, lost)

-- A reservation whose token the work item no longer carries: the outcome of its tool, the mark that
-- it is unknown and the renewal by its heartbeat all leave the whole world as it was, and neither
-- the renewal nor the outcome is reported as accepted.
pub superseded_silent :
    (a : Assistant) (r : Reservation) (response : AgentToolResponse) (context : SecurityContext)
    (w : World) (item : WorkItem)
    → lookup r.work_item.id w.tables.work_items ≡ some item
    → context_is "execution_token" r.execution_token item ≡ false
    → ((finalize_reserved_execution a r response context w).1 ≡ w)
      × OfOk
          (λ x. str_eq x.status "blocked" ≡ true)
          (finalize_reserved_execution a r response context w).0
      × ((mark_unknown a r context w).1 ≡ w)
      × ((renew_execution_reservation a r context w).1 ≡ w)
      × OfOk (λ x. x ≡ false) (renew_execution_reservation a r context w).0
unfolding OfOk finalize_reserved_execution mark_unknown renew_execution_reservation transaction
    blocked_response
superseded_silent a r response context w item found lost =
    elim (target_cases r context w item found) [
      | inl (e, raised) ↦ rw raised (closed w, tt, closed w, closed w, tt)
      | inr (plan, step, known) ↦
          rw (known, not_active a r item step lost) (refl, refl, refl, refl, refl)
    ]
