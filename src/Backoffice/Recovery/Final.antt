-- ===== src/Backoffice/Recovery/Final.antt =====
-- A statement on an execution whose outcome is on record.
use ai_document_ops_system.Prelude.{
  ℕ, Bool, true, false, some, String, str_eq, ◌≡◌, refl, if◌then◌else◌, Bool-cases, inl, inr,
}
use ai_document_ops_system.Prelude.Dict.{lookup}
use ai_document_ops_system.Prelude.Text.{squeeze, take_text, is_empty_text}
use ai_document_ops_system.Backoffice.Models.{
  WorkItem, TaskPlan, ActionStep, ActionStepStatus, step_status_eq,
}
use ai_document_ops_system.Backoffice.Recovery.{
  reconcile_execution, reconcile_step, plan_containing_step,
}
use ai_document_ops_system.Backoffice.Setup.{Assistant, work_item_for_context, find_step}
use ai_document_ops_system.Backoffice.Store.{get_work_item}
use ai_document_ops_system.Core.Errors.{ok}
use ai_document_ops_system.Core.Security.{SecurityContext}
use ai_document_ops_system.Runtime.{World, transaction}
use ai_document_ops_system.Runtime.Refuses.{closed, closed_same}
use ai_document_ops_system.Runtime.Yields.{OfOk}

-- By the state of the step.
final_by :
    (a : Assistant) (item : WorkItem) (plan : TaskPlan) (step : ActionStep)
    (context : SecurityContext) (succeeded : Bool) (summary : String) (s : ActionStepStatus)
    (w : World)
    → step_status_eq s ActionStepStatus.executing ≡ false
    → ((reconcile_step a item plan step context succeeded summary s w).1 ≡ w)
      × OfOk
          (λ i.
            (i ≡ item)
            × (s ≡ (if succeeded then ActionStepStatus.executed else ActionStepStatus.failed)))
          (reconcile_step a item plan step context succeeded summary s w).0
unfolding reconcile_step OfOk
final_by a item plan step context true summary ActionStepStatus.executed w h = (refl, (refl, refl))
final_by a item plan step context false summary ActionStepStatus.executed w h = (refl, tt)
final_by a item plan step context true summary ActionStepStatus.failed w h = (refl, tt)
final_by a item plan step context false summary ActionStepStatus.failed w h = (refl, (refl, refl))
final_by a item plan step context succeeded summary ActionStepStatus.executing w h = cc
final_by a item plan step context succeeded summary ActionStepStatus.planned w h = (refl, tt)
final_by a item plan step context succeeded summary ActionStepStatus.waiting_for_approval w h =
    (refl, tt)
final_by a item plan step context succeeded summary ActionStepStatus.approved w h = (refl, tt)
final_by a item plan step context succeeded summary ActionStepStatus.blocked w h = (refl, tt)

-- A step that is not being executed (its outcome is on record, it was never reserved, or it is
-- blocked): whatever a person states of it, the whole world stays as it was, and the statement is
-- accepted, with the work item as it is, only if it is the outcome on record.
pub outcome_final :
    (a : Assistant) (work_item_id step_id : ℕ) (context : SecurityContext) (succeeded : Bool)
    (summary : String) (w : World) (item : WorkItem) (plan : TaskPlan) (step : ActionStep)
    → lookup work_item_id w.tables.work_items ≡ some item
    → plan_containing_step a item step_id w ≡ (ok plan, w)
    → find_step step_id plan.steps ≡ some step
    → step_status_eq step.status ActionStepStatus.executing ≡ false
    → ((reconcile_execution a work_item_id step_id context succeeded summary w).1 ≡ w)
      × OfOk
          (λ i.
            (i ≡ item)
            × (step.status
                ≡ (if succeeded then ActionStepStatus.executed else ActionStepStatus.failed)))
          (reconcile_execution a work_item_id step_id context succeeded summary w).0
unfolding reconcile_execution transaction work_item_for_context get_work_item OfOk
outcome_final a work_item_id step_id context succeeded summary w item plan step found held has_step
      still =
    let normalized = take_text 500 (squeeze summary) in
    let (same, known) =
      final_by a item plan step context succeeded normalized step.status w still in
    elim (Bool-cases (is_empty_text normalized)) [
      | inl blank ↦ rw blank (refl, tt)
      | inr filled ↦ elim (Bool-cases (str_eq item.workspace_id context.workspace_id)) [
        | inr other ↦ rw (filled, found, other) (closed w, tt)
        | inl same_workspace ↦
            rw (filled, found, same_workspace, held, has_step) (closed_same _ w _ same, known)
      ]
    ]
