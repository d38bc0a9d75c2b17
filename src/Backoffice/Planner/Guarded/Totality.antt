-- ===== src/Backoffice/Planner/Guarded/Totality.antt =====
-- Planning always returns, and with guarded steps.
use ai_document_ops_system.Prelude.{Bool, Option, none, some, String}
use ai_document_ops_system.Backoffice.Models.{WorkItem, WorkType, TaskPlan}
use ai_document_ops_system.Backoffice.Planner.{
  base_step, block_step, judged_step, new_step, add_step, add_new_step, set_current_plan, classify,
}
use ai_document_ops_system.Backoffice.Planner.Playbooks.{
  add_invoice_review_steps, add_invoice_export_steps, explain_if_linked, add_accounting_note_steps,
  add_vendor_follow_up_steps, add_escalation, add_missing_evidence, add_steps, new_plan, classified,
  make_plan,
}
use ai_document_ops_system.Backoffice.Policy.{ActionType}
use ai_document_ops_system.Backoffice.Setup.{Texts, PlanningInput}
use ai_document_ops_system.Core.Security.{SecurityContext}
use ai_document_ops_system.Runtime.{World}
use ai_document_ops_system.Runtime.Effects.{Total, total_rules}
use ai_document_ops_system.Runtime.Yields.{
  Returned, OfOk-Returned, Yields, Yields-pure, Yields-last, Yields-if,
}
use ai_document_ops_system.Backoffice.Planner.Guarded.{
  add_steps-guarded, IsGuardedResult, add_missing_evidence-guarded, new_plan-guarded, after_plan,
}

new_step-Total :
    (item : WorkItem) (context : SecurityContext) (action : ActionType) (evidence : Bool)
    (why_this why_not : String)
    → Total (new_step item context action evidence why_this why_not)
unfolding new_step base_step judged_step block_step
new_step-Total item context action evidence why_this why_not = search total_rules depth 16

add_new_step-Total :
    (item : WorkItem) (context : SecurityContext) (action : ActionType) (evidence : Bool)
    (why_this why_not : String) (plan : TaskPlan)
    → Total (add_new_step item context action evidence why_this why_not plan)
unfolding add_new_step add_step
add_new_step-Total item context action evidence why_this why_not plan =
    search (total_rules, new_step-Total) depth 16

add_steps-Total :
    (work_type : WorkType) (item : WorkItem) (context : SecurityContext) (inputs : PlanningInput)
    (plan : TaskPlan)
    → Total (add_steps work_type item context inputs plan)
unfolding add_steps add_invoice_review_steps add_invoice_export_steps add_accounting_note_steps
    add_vendor_follow_up_steps add_escalation add_missing_evidence explain_if_linked base_step
    block_step add_step
add_steps-Total WorkType.invoice_review item context inputs plan =
    search (total_rules, add_new_step-Total) depth 16
add_steps-Total WorkType.invoice_export item context inputs plan =
    search (total_rules, add_new_step-Total) depth 24
add_steps-Total WorkType.accounting_note item context inputs plan =
    search (total_rules, add_new_step-Total) depth 16
add_steps-Total WorkType.vendor_follow_up item context inputs plan =
    search (total_rules, add_new_step-Total) depth 16
add_steps-Total WorkType.exception_handling item context inputs plan =
    search (total_rules, add_new_step-Total) depth 16
add_steps-Total WorkType.insufficient_evidence item context inputs plan =
    search (total_rules, add_new_step-Total) depth 16

classified-Total :
    (texts : Texts) (item : WorkItem) (inputs : PlanningInput) (work_type : Option WorkType)
    → Total (classified texts item inputs work_type)
unfolding classified classify
classified-Total texts item inputs (some work_type) = search total_rules depth 8
classified-Total texts item inputs none = search total_rules depth 8

make_plan-Total :
    (texts : Texts) (item : WorkItem) (context : SecurityContext) (inputs : PlanningInput)
    → Total (make_plan texts item context inputs)
unfolding make_plan new_plan add_missing_evidence add_escalation set_current_plan
make_plan-Total texts item context inputs =
    search (total_rules, add_new_step-Total, add_steps-Total, classified-Total) depth 24

make_plan-guarded :
    (texts : Texts) (item : WorkItem) (context : SecurityContext) (inputs : PlanningInput)
    → Yields IsGuardedResult (make_plan texts item context inputs)
unfolding make_plan
make_plan-guarded texts item context inputs =
    search
      (
        Yields-last, Yields-if, Yields-pure, after_plan, new_plan-guarded, add_steps-guarded,
        add_missing_evidence-guarded,
      )
      depth 12

-- Whatever the work item, the caller and the inputs: a plan is made, and of its steps every one
-- whose action needs a confirmation requires an approval, and waits for it or is blocked.
pub make_plan_guarded :
    (texts : Texts) (item : WorkItem) (context : SecurityContext) (inputs : PlanningInput)
    (w : World)
    → Returned IsGuardedResult (make_plan texts item context inputs w).0
make_plan_guarded texts item context inputs w =
    OfOk-Returned IsGuardedResult _ ((make_plan-guarded texts item context inputs).yielded w)
      ((make_plan-Total texts item context inputs).returns w)
