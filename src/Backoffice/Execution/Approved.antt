-- ===== src/Backoffice/Execution/Approved.antt =====
-- What a reservation needs: an approval where the step requires one, and an approved document for an
-- export.
use ai_document_ops_system.Prelude.{
  ℕ, Bool, true, false, not, ◌&&◌, ◌||◌, any, List, [], ◌∷◌, opt_eq, Option, none, some, is_none,
  str_eq, select, ◌==◌, ◌≡◌, refl, ap, arith, Option-cases, Bool-cases, ◌⊎◌, inl, inr,
}
use ai_document_ops_system.Prelude.Dict.{lookup, values}
use ai_document_ops_system.Agent.Contracts.{AgentToolName}
use ai_document_ops_system.Backoffice.Execution.{
  Choice, tool, answer, execution_tool_or_error, tool_by_status, choose_tool,
  approved_action_for_step, first_approved, is_export, first_of, export_execution_guard,
  guard_document, action_tool,
}
use ai_document_ops_system.Backoffice.Execution.Reserving.{
  Reservation, held, reserve_approved_execution, reserve_chosen, current_plan,
}
use ai_document_ops_system.Backoffice.Execution.Safety.{IsTarget, is_settled}
use ai_document_ops_system.Backoffice.Models.{
  WorkItem, TaskPlan, ActionStep, ActionStepStatus, Approval, ApprovalStatus, approval_status_eq,
}
use ai_document_ops_system.Backoffice.Policy.{ActionType, export_approved_invoice}
use ai_document_ops_system.Backoffice.Setup.{Assistant, find_step, work_item_for_context}
use ai_document_ops_system.Backoffice.Store.{get_work_item, get_plan, approvals_of}
use ai_document_ops_system.Core.Errors.{ok, err, is_ok, Result}
use ai_document_ops_system.Core.Security.{SecurityContext}
use ai_document_ops_system.Documents.Models.{DocumentRecord}
use ai_document_ops_system.Documents.Repositories.{get_document}
use ai_document_ops_system.Documents.Status.{approved, status_eq}
use ai_document_ops_system.Documents.Workflow.{workspace_document}
use ai_document_ops_system.Runtime.{World, Tables, resume, transaction}

-- A person has granted this approval of the step.
abbrev pub is_grant : ApprovalStatus → Bool
is_grant ApprovalStatus.approved = true
is_grant ApprovalStatus.pending = false
is_grant ApprovalStatus.rejected = false

abbrev pub grants : WorkItem → ActionStep → Approval → Bool
grants item step p =
    str_eq p.workspace_id item.workspace_id
    && p.work_item_id == item.id
    && opt_eq p.action_step_id (some step.id)
    && is_grant p.status

abbrev pub exports : ActionType → Bool
exports export_approved_invoice = true
exports _ = false

abbrev is_ready : WorkItem → Option DocumentRecord → Bool
is_ready item none = false
is_ready item (some d) = str_eq d.workspace_id item.workspace_id && status_eq d.status approved

-- The first linked document is there, of the work item's workspace, and approved.
abbrev pub is_exportable : WorkItem → List ℕ → Tables → Bool
is_exportable item [] t = false
is_exportable item (id ∷ ids) t = is_ready item (lookup id t.documents)

-- The step is neither running nor settled; if it requires an approval, one that a person granted for
-- it is stored; and an export has its approved document, if there is a repository of documents.
pub record IsExecutable (a : Assistant) (item : WorkItem) (step : ActionStep) (t : Tables)
    : Type 0 where
  pub startable : is_settled step.status ≡ false
  pub confirmed : (not step.requires_approval || any (grants item step) (values t.approvals)) ≡ true
  pub exportable :
      (not (exports step.action_type)
        || not a.has_documents
        || is_exportable item item.linked_document_ids t)
      ≡ true

grant_status_lem : (s : ApprovalStatus) → approval_status_eq s ApprovalStatus.approved ≡ is_grant s
grant_status_lem ApprovalStatus.approved = refl
grant_status_lem ApprovalStatus.pending = refl
grant_status_lem ApprovalStatus.rejected = refl

exports_lem : (a : ActionType) → is_export a ≡ exports a
exports_lem a = ground arith

-- The first approval that the code finds is one that was granted.
found_grant :
    (item : WorkItem) (step : ActionStep) (ps : List Approval)
    → (is_none (
          first_approved step.id
            (select (λ p. str_eq p.workspace_id item.workspace_id && p.work_item_id == item.id) ps))
        || any (grants item step) ps)
      ≡ true
unfolding first_approved
found_grant item step [] = refl
found_grant item step (p ∷ ps) = ground (arith, grant_status_lem p.status, found_grant item step ps)

guard_passed :
    (item : WorkItem) (step : ActionStep) (ids : List ℕ) (w : World)
    → (guard_document item step (first_of ids) w).0 ≡ ok none
    → is_exportable item ids w.tables ≡ true
unfolding guard_document workspace_document get_document
guard_passed item step [] w h = cc
guard_passed item step (id ∷ ids) w h = elim (Option-cases (lookup id w.tables.documents)) [
  | inl missing ↦ absurd (ground arith)
  | inr (d, found) ↦ ground (arith, found, h)
]

chosen_only :
    (a : Assistant) (item : WorkItem) (step : ActionStep) (mapped : Option AgentToolName)
    (name : AgentToolName) (w : World)
    → (choose_tool a item step mapped w).0 ≡ ok (tool name)
    → ((not step.requires_approval || any (grants item step) (values w.tables.approvals)) ≡ true)
      × ((export_execution_guard a item step w).0 ≡ ok none)
unfolding choose_tool approved_action_for_step approvals_of
chosen_only a item step none name w h = ground (arith, h)
chosen_only a item step (some n) name w h =
    ground (arith, h, found_grant item step (values w.tables.approvals))

export_passed :
    (a : Assistant) (item : WorkItem) (step : ActionStep) (w : World)
    → (export_execution_guard a item step w).0 ≡ ok none
    → (not (exports step.action_type)
        || not a.has_documents
        || is_exportable item item.linked_document_ids w.tables)
      ≡ true
unfolding export_execution_guard
export_passed a item step w h =
    ground
      (arith, h, exports_lem step.action_type, guard_passed item step item.linked_document_ids w)

by_status :
    (a : Assistant) (item : WorkItem) (step : ActionStep) (s : ActionStepStatus)
    (name : AgentToolName) (w : World)
    → (tool_by_status a item step s w).0 ≡ ok (tool name)
    → (is_settled s ≡ false)
      × ((choose_tool a item step (action_tool step.action_type) w).0 ≡ ok (tool name))
unfolding tool_by_status is_settled
by_status a item step ActionStepStatus.planned name w h = (refl, h)
by_status a item step ActionStepStatus.waiting_for_approval name w h = (refl, h)
by_status a item step ActionStepStatus.approved name w h = (refl, h)
by_status a item step ActionStepStatus.executing name w h = cc
by_status a item step ActionStepStatus.executed name w h = cc
by_status a item step ActionStepStatus.blocked name w h = cc
by_status a item step ActionStepStatus.failed name w h = cc

tool_only :
    (a : Assistant) (item : WorkItem) (step : ActionStep) (name : AgentToolName) (w : World)
    → (execution_tool_or_error a item step w).0 ≡ ok (tool name)
    → IsExecutable a item step w.tables
unfolding execution_tool_or_error
tool_only a item step name w h =
    let (startable, chosen) = by_status a item step step.status name w h in
    let (confirmed, guarded_by) = chosen_only a item step _ name w chosen in
    record {
      startable = startable;
      confirmed = confirmed;
      exportable = export_passed a item step w guarded_by;
    }

-- Only a choice of a tool is turned into a reservation.
choice_held :
    (a : Assistant) (context : SecurityContext) (item : WorkItem) (plan : TaskPlan)
    (step : ActionStep) (choice : Choice) (r : Reservation) (w : World)
    → (reserve_chosen a context item plan step choice w).0 ≡ ok (held r)
    → (name : AgentToolName) × (choice ≡ tool name)
unfolding reserve_chosen
choice_held a context item plan step (tool name) r w h = (name, refl)
choice_held a context item plan step (answer response) r w h = cc

held_after :
    (a : Assistant) (context : SecurityContext) (item : WorkItem) (plan : TaskPlan)
    (step : ActionStep) (c : Result Choice) (r : Reservation) (w : World)
    → (resume c (reserve_chosen a context item plan step) w).0 ≡ ok (held r)
    → (name : AgentToolName) × (c ≡ ok (tool name))
held_after a context item plan step (err e) r w h = cc
held_after a context item plan step (ok choice) r w h =
    let (name, same) = choice_held a context item plan step choice r w h in (name, ap ok same)

plan_cases :
    (item : WorkItem) (w : World)
    → (is_ok (current_plan item w).0 ≡ false)
      ⊎ ((plan_id : ℕ) × (plan : TaskPlan) × (item.current_plan_id ≡ some plan_id)
          × (lookup plan_id w.tables.plans ≡ some plan)
          × (current_plan item w ≡ (ok plan, w)))
unfolding current_plan get_plan
plan_cases item w = elim (Option-cases item.current_plan_id) [
  | inl nothing ↦ inl (rw nothing refl)
  | inr (plan_id, is_current) ↦ elim (Option-cases (lookup plan_id w.tables.plans)) [
    | inl missing ↦ inl (rw (is_current, missing) refl)
    | inr (plan, found) ↦ inr (plan_id, plan, is_current, found, rw (is_current, found) refl)
  ]
]

-- A step is reserved for execution only if it is a step of the current plan of a work item of the
-- caller's workspace, neither running nor settled; if an approval of this step that a person granted
-- is stored, where it requires one; and if the first linked document is approved and of the same workspace, where it
-- is an export and there is a repository of documents.
pub reserved_only :
    (a : Assistant) (work_item_id step_id : ℕ) (context : SecurityContext) (w : World)
    (r : Reservation)
    → (reserve_approved_execution a work_item_id step_id context w).0 ≡ ok (held r)
    → (item : WorkItem) × (plan : TaskPlan) × (step : ActionStep) × IsTarget work_item_id step_id
        context w.tables item plan step
      × IsExecutable a item step w.tables
unfolding reserve_approved_execution transaction work_item_for_context get_work_item
reserved_only a work_item_id step_id context w r h =
    elim (Option-cases (lookup work_item_id w.tables.work_items)) [
      | inl no_item ↦ absurd (ground arith)
      | inr (item, has_item) ↦ elim (Bool-cases (str_eq item.workspace_id context.workspace_id)) [
        | inr other ↦ absurd (ground arith)
        | inl same ↦ elim (plan_cases item w) [
          | inl no_plan ↦ absurd (ground arith)
          | inr (plan_id, plan, is_current, has_plan, known) ↦
              elim (Option-cases (find_step step_id plan.steps)) [
                | inl no_step ↦ absurd (ground arith)
                | inr (step, has_step) ↦
                    let ran = rw (has_item, same, known, has_step) at h in
                    let (name, chosen) =
                      held_after a context item plan step (execution_tool_or_error a item step w).0
                        r (execution_tool_or_error a item step w).1 ran in
                    (
                      item,
                      plan,
                      step,
                      record {
                        found_item = has_item;
                        same_workspace = same;
                        plan_id = plan_id;
                        is_current = is_current;
                        found_plan = has_plan;
                        found_step = has_step;
                      },
                      tool_only a item step name w chosen,
                    )
              ]
        ]
      ]
    ]
