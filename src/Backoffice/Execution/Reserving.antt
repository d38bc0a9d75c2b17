-- ===== src/Backoffice/Execution/Reserving.antt =====
-- `reserve_approved_execution` of backend/app/backoffice/execution.py.
use ai_document_ops_system.Prelude.{ℕ, none, String, [], ◌∷◌}
use ai_document_ops_system.Prelude.Text.{concat_text}
use ai_document_ops_system.Agent.Contracts.{AgentToolName, AgentToolResponse}
use ai_document_ops_system.Backoffice.Models.{
  WorkItem, WorkItemStatus, ActionStep, ActionStepStatus, TaskPlan,
}
use ai_document_ops_system.Backoffice.Policy.{action_text}
use ai_document_ops_system.Backoffice.Setup.{
  Assistant, attach_context, work_item_for_context, find_step, set_step, record_event,
}
use ai_document_ops_system.Backoffice.Store.{save_work_item, save_plan, get_plan}
use ai_document_ops_system.Core.Errors.{require_some, not_found, backoffice_workflow}
use ai_document_ops_system.Core.Security.{SecurityContext}
use ai_document_ops_system.Runtime.{M, pure, lift, now, new_uuid, transaction, ◌>>=◌, ◌>>◌}
use ai_document_ops_system.Backoffice.Execution.{Choice, tool, answer, execution_tool_or_error}

pub record Reservation : Type 0 where
  pub work_item : WorkItem
  pub plan_id : ℕ
  pub step : ActionStep
  pub tool_name : AgentToolName
  pub execution_token : String

pub data Reserved : Type 0 where
  held : Reservation → Reserved
  answered : AgentToolResponse → Reserved

unfoldable pub current_plan : WorkItem → M TaskPlan
unfolding get_plan
current_plan item = do
  id ← lift (require_some item.current_plan_id backoffice_workflow)
  get_plan id

abbrev pub with_step : TaskPlan → ActionStep → TaskPlan
with_step plan step = record plan { steps = set_step step plan.steps }

-- The work item of a reservation: its state, and the marks in its context.
unfoldable pub reserved_item :
    Assistant → WorkItem → TaskPlan → ActionStep → String → ℕ → M WorkItem
unfolding attach_context
reserved_item a item plan step token at = do
  let started = let i : WorkItem = record item { status = WorkItemStatus.executing } in i
  i1 ← attach_context "execution_token" token started
  i2 ← attach_context "execution_outcome" "in_flight" i1
  i3 ← attach_context "execution_heartbeat_at" (a.texts.iso_text at) i2
  i4 ← attach_context "execution_plan_id" (a.texts.uuid_text plan.id) i3
  i5 ← attach_context "execution_step_id" (a.texts.uuid_text step.id) i4
  pure (record i5 { updated_at = at })

unfoldable pub reserve_chosen :
    Assistant → SecurityContext → WorkItem → TaskPlan → ActionStep → Choice → M Reserved
unfolding reserved_item save_plan save_work_item record_event concat_text action_text set_step
reserve_chosen a context item plan step (answer response) = pure (answered response)
reserve_chosen a context item plan step (tool name) = do
  token ← new_uuid
  at ← now
  let running =
      let s : ActionStep = record step { status = ActionStepStatus.executing; updated_at = at } in s
  reserved ← reserved_item a item plan step (a.texts.uuid_hex token) at
  save_plan (with_step plan running)
  save_work_item reserved
  record_event a reserved "action_execution_started" context.actor
      (concat_text ("Controlled execution reserved for " ∷ action_text step.action_type ∷ "." ∷ []))
      none
  pure (
      held (record {
        work_item = reserved;
        plan_id = plan.id;
        step = running;
        tool_name = name;
        execution_token = a.texts.uuid_hex token;
      }))

-- `reserve_approved_execution`
unfoldable pub reserve_approved_execution : Assistant → ℕ → ℕ → SecurityContext → M Reserved
unfolding transaction work_item_for_context current_plan find_step execution_tool_or_error
    reserve_chosen
reserve_approved_execution a work_item_id step_id context = transaction (do
  item ← work_item_for_context work_item_id context
  plan ← current_plan item
  step ← lift (require_some (find_step step_id plan.steps) not_found)
  choice ← execution_tool_or_error a item step
  reserve_chosen a context item plan step choice)
