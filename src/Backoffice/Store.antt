-- ===== src/Backoffice/Store.antt =====
-- The in-memory repositories of backend/app/backoffice/repositories.py and of the runs of the
-- assistant. Values go in and come out as copies.
use ai_document_ops_system.Prelude.{
  ℕ, Bool, false, ◌&&◌, Option, none, some, String, List, [], ◌∷◌, ◌++◌, ◌==◌, str_eq, select,
  if◌then◌else◌,
}
use ai_document_ops_system.Prelude.Dict.{lookup, insert, values}
use ai_document_ops_system.Agent.Contracts.{AgentRun}
use ai_document_ops_system.Backoffice.Models.{
  WorkItem, TaskPlan, ActionDraft, Approval, ApprovalStatus, WorkflowEvent, approval_status_eq,
}
use ai_document_ops_system.Backoffice.Policy.{PolicyDecision}
use ai_document_ops_system.Core.Errors.{not_found, require_some}
use ai_document_ops_system.Runtime.{M, pure, lift, read, write, ◌>>=◌, ◌>>◌}

unfoldable pub save_work_item : WorkItem → M WorkItem
save_work_item item = do
  write (λ t. record t { work_items = insert item.id item t.work_items })
  pure item

unfoldable pub get_work_item : ℕ → M WorkItem
get_work_item id = do
  found ← read (λ t. lookup id t.work_items)
  lift (require_some found not_found)

abbrev holds_text : Option String → String → Bool
holds_text none key = false
holds_text (some held) key = str_eq held key

-- The first work item of the workspace with the key.
unfoldable pub first_with_key : String → String → List WorkItem → Option WorkItem
first_with_key workspace_id key [] = none
first_with_key workspace_id key (item ∷ items) =
    if str_eq item.workspace_id workspace_id && holds_text item.idempotency_key key
    then some item
    else first_with_key workspace_id key items

unfoldable pub get_item_by_key : String → String → M (Option WorkItem)
unfolding first_with_key
get_item_by_key workspace_id key = read (λ t. first_with_key workspace_id key (values t.work_items))

unfoldable pub save_plan : TaskPlan → M TaskPlan
save_plan plan = do write (λ t. record t { plans = insert plan.id plan t.plans }); pure plan

unfoldable pub get_plan : ℕ → M TaskPlan
get_plan id = do found ← read (λ t. lookup id t.plans); lift (require_some found not_found)

abbrev of_item : String → ℕ → TaskPlan → Bool
of_item workspace_id work_item_id plan =
    str_eq plan.workspace_id workspace_id && plan.work_item_id == work_item_id

unfoldable pub first_plan_with_key : String → ℕ → String → List TaskPlan → Option TaskPlan
first_plan_with_key workspace_id work_item_id key [] = none
first_plan_with_key workspace_id work_item_id key (plan ∷ plans) =
    if of_item workspace_id work_item_id plan && holds_text plan.idempotency_key key
    then some plan
    else first_plan_with_key workspace_id work_item_id key plans

unfoldable pub get_plan_by_key : String → ℕ → String → M (Option TaskPlan)
unfolding first_plan_with_key
get_plan_by_key workspace_id work_item_id key =
    read (λ t. first_plan_with_key workspace_id work_item_id key (values t.plans))

unfoldable pub plans_of : String → ℕ → M (List TaskPlan)
plans_of workspace_id work_item_id =
    read (λ t. select (of_item workspace_id work_item_id) (values t.plans))

unfoldable pub save_draft : ActionDraft → M ActionDraft
save_draft draft = do write (λ t. record t { drafts = insert draft.id draft t.drafts }); pure draft

unfoldable pub get_draft : ℕ → M ActionDraft
get_draft id = do found ← read (λ t. lookup id t.drafts); lift (require_some found not_found)

unfoldable pub drafts_of : String → ℕ → M (List ActionDraft)
drafts_of workspace_id work_item_id = read (λ t.
    select (λ d. str_eq d.workspace_id workspace_id && d.work_item_id == work_item_id)
      (values t.drafts))

unfoldable pub save_approval : Approval → M Approval
save_approval approval = do
  write (λ t. record t { approvals = insert approval.id approval t.approvals })
  pure approval

unfoldable pub get_approval : ℕ → M Approval
get_approval id = do found ← read (λ t. lookup id t.approvals); lift (require_some found not_found)

unfoldable pub approvals_of : String → ℕ → M (List Approval)
approvals_of workspace_id work_item_id = read (λ t.
    select (λ a. str_eq a.workspace_id workspace_id && a.work_item_id == work_item_id)
      (values t.approvals))

unfoldable pub list_pending : String → M (List Approval)
list_pending workspace_id = read (λ t.
    select
      (λ a.
        str_eq a.workspace_id workspace_id && approval_status_eq a.status ApprovalStatus.pending)
      (values t.approvals))

unfoldable pub add_decision : PolicyDecision → M PolicyDecision
add_decision decision = do
  write (λ t. record t { policy_decisions = t.policy_decisions ++ decision ∷ [] })
  pure decision

unfoldable pub add_workflow_event : WorkflowEvent → M WorkflowEvent
add_workflow_event event = do
  write (λ t. record t { workflow_events = t.workflow_events ++ event ∷ [] })
  pure event

unfoldable pub add_run : AgentRun → M AgentRun
add_run run = do write (λ t. record t { agent_runs = insert run.id run t.agent_runs }); pure run
