-- ===== src/Backoffice/Planner/Guarded.antt =====
-- The steps of a plan that change data wait for an approval.
pub mod Totality
use ai_document_ops_system.Prelude.{
  Bool, true, false, not, ◌&&◌, ◌||◌, Option, none, some, String, List, [], ◌∷◌, ◌++◌, all, ◌≡◌,
  refl, ap, arith, Option-cases, Bool-cases, inl, inr,
}
use ai_document_ops_system.Backoffice.Models.{
  WorkItem, WorkType, ActionStep, ActionStepStatus, TaskPlan, step_status_eq,
}
use ai_document_ops_system.Backoffice.Planner.{
  base_step, block_step, judged_step, new_step, add_step, add_new_step, set_current_plan, classify,
}
use ai_document_ops_system.Backoffice.Planner.Playbooks.{
  add_invoice_review_steps, add_invoice_export_steps, explain_if_linked, add_accounting_note_steps,
  add_vendor_follow_up_steps, add_escalation, add_missing_evidence, add_steps, new_plan, classified,
  make_plan,
}
use ai_document_ops_system.Backoffice.Policy.{
  ActionType, export_approved_invoice, rule_of, decide_action, blocked_reason, decision,
  PolicyRequest, PolicyDecision,
}
use ai_document_ops_system.Backoffice.Setup.{Texts, PlanningInput}
use ai_document_ops_system.Core.Security.{SecurityContext}
use ai_document_ops_system.Runtime.{World, M, ◌>>=◌}
use ai_document_ops_system.Runtime.Effects.{Total, total_rules}
use ai_document_ops_system.Runtime.Yields.{
  OfOk, Returned, OfOk-Returned, Yields, Yields-pure, Yields-bind, Yields-last, Yields-if,
}

all-append :
    {A : Type 0} (p : A → Bool) (xs : List A) (y : A)
    → all p xs ≡ true
    → p y ≡ true
    → all p (xs ++ y ∷ []) ≡ true
all-append p [] y h k = ground (arith, k)
all-append p (x ∷ xs) y h k = ground (arith, h, k, all-append p xs y)

-- A step whose action needs a confirmation requires an approval, and waits for it or is blocked.
unfoldable pub is_guarded : ActionStep → Bool
unfolding rule_of
is_guarded step =
    not (rule_of step.action_type).requires_confirmation
    || (step.requires_approval
        && (step_status_eq step.status ActionStepStatus.waiting_for_approval
            || step_status_eq step.status ActionStepStatus.blocked))

abbrev pub IsGuardedPlan : TaskPlan → Type 0
IsGuardedPlan plan = all is_guarded plan.steps ≡ true

decide_confirmation :
    (r : PolicyRequest) (context : SecurityContext)
    → (decide_action r context).requires_confirmation
      ≡ ((rule_of r.action).requires_confirmation && not r.confirmed)
unfolding decide_action decision
decide_confirmation r context = elim (Option-cases (blocked_reason r (rule_of r.action) context)) [
  | inl free ↦ rw free refl
  | inr (why, stopped) ↦ rw stopped refl
]

judged_guarded :
    (d : PolicyDecision) (step : ActionStep)
    → d.requires_confirmation ≡ (rule_of step.action_type).requires_confirmation
    → Yields (λ s. is_guarded s ≡ true) (judged_step d step)
unfolding judged_step block_step is_guarded OfOk
judged_guarded d step h = record {
  yielded = λ w. elim (Bool-cases d.requires_confirmation) [
    | inl b ↦ ground (arith, b, h)
    | inr b ↦ ground (arith, b, h)
  ];
}

base_step-action :
    (action : ActionType) (why_this why_not : String)
    → Yields (λ s. s.action_type ≡ action) (base_step action why_this why_not)
unfolding base_step OfOk
base_step-action action why_this why_not = record { yielded = λ w. refl }

abbrev request : WorkItem → ActionType → Bool → PolicyRequest
request item action evidence = record {
  workspace_id = item.workspace_id;
  work_item_id = item.id;
  action = action;
  action_step_id = none;
  target_workspace_id = none;
  evidence_sufficient = evidence;
  confirmed = false;
}

new_step-guarded :
    (item : WorkItem) (context : SecurityContext) (action : ActionType) (evidence : Bool)
    (why_this why_not : String)
    → Yields (λ s. is_guarded s ≡ true) (new_step item context action evidence why_this why_not)
unfolding new_step
new_step-guarded item context action evidence why_this why_not =
    Yields-bind _ _ (base_step-action action why_this why_not) (λ step same.
      judged_guarded (decide_action (request item action evidence) context) step (
        ground (
          arith,
          decide_confirmation (request item action evidence) context,
          ap (λ x. (rule_of x).requires_confirmation) same,
        )))

blocked-guarded :
    (step : ActionStep) (reason : String)
    → step.requires_approval ≡ true
    → Yields (λ s. is_guarded s ≡ true) (block_step reason step)
unfolding block_step is_guarded OfOk
blocked-guarded step reason h = record { yielded = λ w. ground (arith, h) }

add_step-guarded :
    (step : ActionStep) (plan : TaskPlan)
    → is_guarded step ≡ true
    → IsGuardedPlan plan
    → Yields IsGuardedPlan (add_step step plan)
unfolding add_step OfOk
add_step-guarded step plan h k = record { yielded = λ w. all-append is_guarded plan.steps step k h }

add_new_step-guarded :
    (item : WorkItem) (context : SecurityContext) (action : ActionType) (evidence : Bool)
    (why_this why_not : String) (plan : TaskPlan)
    → IsGuardedPlan plan
    → Yields IsGuardedPlan (add_new_step item context action evidence why_this why_not plan)
unfolding add_new_step
add_new_step-guarded item context action evidence why_this why_not plan k =
    Yields-bind _ _ (new_step-guarded item context action evidence why_this why_not)
      (λ step h. add_step-guarded step plan h k)

-- What follows a plan with guarded steps may use that they are.
then_guarded :
    (m : M TaskPlan) (f : TaskPlan → M TaskPlan)
    → Yields IsGuardedPlan m
    → ((p : TaskPlan) → IsGuardedPlan p → Yields IsGuardedPlan (f p))
    → Yields IsGuardedPlan (m >>= f)
then_guarded m f h k = Yields-bind f m h k

explain_if_linked-guarded :
    (item : WorkItem) (context : SecurityContext) (why_this why_not : String) (plan : TaskPlan)
    → IsGuardedPlan plan
    → Yields IsGuardedPlan (explain_if_linked item context why_this why_not plan)
unfolding explain_if_linked
explain_if_linked-guarded item context why_this why_not plan k =
    search (Yields-if, Yields-pure, add_new_step-guarded, k) depth 6

export_needs :
    (why_this why_not : String)
    → Yields (λ s. s.requires_approval ≡ true) (base_step export_approved_invoice why_this why_not)
unfolding base_step rule_of OfOk
export_needs why_this why_not = record { yielded = λ w. refl }

export_refused-guarded :
    (plan : TaskPlan) (why_this why_not reason : String)
    → IsGuardedPlan plan
    → Yields IsGuardedPlan (
        base_step export_approved_invoice why_this why_not >>= λ step.
        block_step reason step >>= λ refused. add_step refused plan)
export_refused-guarded plan why_this why_not reason k =
    Yields-bind _ _ (export_needs why_this why_not) (λ step h.
      Yields-bind _ _ (blocked-guarded step reason h)
        (λ refused g. add_step-guarded refused plan g k))

ruleset guarded_rules = (
  add_new_step-guarded, then_guarded, explain_if_linked-guarded, export_refused-guarded, Yields-if,
)

add_steps-guarded :
    (work_type : WorkType) (item : WorkItem) (context : SecurityContext) (inputs : PlanningInput)
    (plan : TaskPlan)
    → IsGuardedPlan plan
    → Yields IsGuardedPlan (add_steps work_type item context inputs plan)
unfolding add_steps add_invoice_review_steps add_invoice_export_steps add_accounting_note_steps
    add_vendor_follow_up_steps add_escalation add_missing_evidence
add_steps-guarded WorkType.invoice_review item context inputs plan k =
    search (guarded_rules, k) depth 8
add_steps-guarded WorkType.invoice_export item context inputs plan k =
    search (guarded_rules, k) depth 8
add_steps-guarded WorkType.accounting_note item context inputs plan k =
    search (guarded_rules, k) depth 8
add_steps-guarded WorkType.vendor_follow_up item context inputs plan k =
    search (guarded_rules, k) depth 8
add_steps-guarded WorkType.exception_handling item context inputs plan k =
    search (guarded_rules, k) depth 8
add_steps-guarded WorkType.insufficient_evidence item context inputs plan k =
    search (guarded_rules, k) depth 8

-- A plan with guarded steps, and the changed work item.
abbrev pub IsGuardedResult : TaskPlan × WorkItem → Type 0
IsGuardedResult x = IsGuardedPlan x.0

add_missing_evidence-guarded :
    (item : WorkItem) (context : SecurityContext) (plan : TaskPlan)
    → IsGuardedPlan plan
    → Yields IsGuardedPlan (add_missing_evidence item context plan)
unfolding add_missing_evidence add_escalation
add_missing_evidence-guarded item context plan k = search (guarded_rules, k) depth 8

new_plan-guarded :
    (item : WorkItem) (inputs : PlanningInput) → Yields IsGuardedPlan (new_plan item inputs)
unfolding new_plan OfOk
new_plan-guarded item inputs = record { yielded = λ w. refl }

after_plan :
    {B : Type 0} {R : B → Type 0} (m : M TaskPlan) (f : TaskPlan → M B)
    → Yields IsGuardedPlan m
    → ((p : TaskPlan) → IsGuardedPlan p → Yields R (f p))
    → Yields R (m >>= f)
after_plan m f h k = Yields-bind f m h k
