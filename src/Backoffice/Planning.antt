-- ===== src/Backoffice/Planning.antt =====
-- `plan_work_item` of backend/app/backoffice/planning_service.py: a plan under an idempotency key,
-- with the decisions, drafts and approvals of its steps.
pub mod Requests
use ai_document_ops_system.Prelude.{
  ℕ, leb, Bool, true, false, not, ◌||◌, Option, none, some, String, List, [], ◌∷◌, ◌++◌, ◌==◌, map,
  any, length, str_eq, select, if◌then◌else◌,
}
use ai_document_ops_system.Prelude.Text.{codes, concat_text, strip, is_empty_text, show_ℕ, text_or}
use ai_document_ops_system.Agent.Contracts.{AgentConfidence, AgentToolName, AgentRun}
use ai_document_ops_system.Backoffice.Approvals.{request_approval_for_step}
use ai_document_ops_system.Backoffice.Drafts.{create_draft_for_step, draft_type_of, draft_text}
use ai_document_ops_system.Backoffice.Execution.{action_tool}
use ai_document_ops_system.Backoffice.Execution.Outcome.{context_is}
use ai_document_ops_system.Backoffice.Models.{
  WorkItem, WorkItemStatus, ActionStep, ActionStepStatus, step_status_eq, TaskPlan, ActionDraft,
  Approval,
}
use ai_document_ops_system.Backoffice.Planner.Playbooks.{make_plan}
use ai_document_ops_system.Backoffice.Policy.{action_text, decide_action}
use ai_document_ops_system.Backoffice.Setup.{
  Assistant, PlanningInput, work_item_for_context, record_event,
}
use ai_document_ops_system.Backoffice.Store.{
  save_work_item, save_plan, get_plan_by_key, drafts_of, approvals_of, add_decision, add_run,
}
use ai_document_ops_system.Core.Errors.{Result, ok, err, guard, backoffice_workflow}
use ai_document_ops_system.Core.Security.{SecurityContext}
use ai_document_ops_system.Runtime.{M, pure, lift, new_uuid, transaction, ◌>>=◌, ◌>>◌}

-- `normalized_key` of request_identity.py.
unfoldable pub normalized_key : Option String → Result (Option String)
unfolding strip is_empty_text
normalized_key none = ok none
normalized_key (some value) =
    let normalized = strip value in
    if is_empty_text normalized
    then ok none
    else if leb (length (codes normalized)) 200
    then ok (some normalized)
    else err backoffice_workflow

-- `require_matching_fingerprint`
unfoldable pub require_matching_fingerprint : Option String → String → Result (Unit {0})
require_matching_fingerprint none expected = err backoffice_workflow
require_matching_fingerprint (some actual) expected =
    guard (str_eq actual expected) backoffice_workflow

pub record BackofficePlanResult : Type 0 where
  pub work_item : WorkItem
  pub plan_id : ℕ
  pub created_draft_ids : List ℕ
  pub pending_approval_ids : List ℕ

abbrev of_step : List ActionStep → Option ℕ → Bool
of_step steps none = false
of_step steps (some id) = any (λ s. s.id == id) steps

unfoldable pub plan_result_for : WorkItem → TaskPlan → String → M BackofficePlanResult
unfolding drafts_of approvals_of
plan_result_for item plan workspace_id = do
  drafts ← drafts_of workspace_id item.id
  approvals ← approvals_of workspace_id item.id
  pure (record {
    work_item = item;
    plan_id = plan.id;
    created_draft_ids =
        map (λ (d : ActionDraft). d.id) (select (λ d. of_step plan.steps d.action_step_id) drafts);
    pending_approval_ids =
        map (λ (p : Approval). p.id) (select (λ p. of_step plan.steps p.action_step_id) approvals);
  })

unfoldable pub require_no_pending_execution : WorkItem → Result (Unit {0})
unfolding context_is
require_no_pending_execution item =
    guard
      (not (
        context_is "execution_outcome" "in_flight" item
        || context_is "execution_outcome" "unknown" item))
      backoffice_workflow

abbrev confidence_of : String → AgentConfidence
confidence_of text =
    if str_eq text "high"
    then AgentConfidence.high
    else if str_eq text "low"
    then AgentConfidence.low
    else AgentConfidence.medium

unfoldable pub first_tool : List ActionStep → Option AgentToolName
unfolding action_tool
first_tool [] = none
first_tool (s ∷ steps) = elim (action_tool s.action_type) [
  | none ↦ first_tool steps
  | some name ↦ some name
]

abbrev why_blocked : ActionStep → Option String → String
why_blocked step none = concat_text (action_text step.action_type ∷ " blocked" ∷ [])
why_blocked step (some reason) =
    text_or reason (concat_text (action_text step.action_type ∷ " blocked" ∷ []))

unfoldable pub plan_run : Assistant → WorkItem → TaskPlan → String → ℕ → AgentRun
unfolding concat_text show_ℕ first_tool action_text text_or
plan_run a item plan actor id =
    let count = show_ℕ (length plan.steps) in
    record {
      workspace_id = item.workspace_id;
      actor = actor;
      request =
          concat_text ("Plan work item " ∷ a.texts.uuid_text item.id ∷ ": " ∷ item.title ∷ []);
      intent = "backoffice_plan_and_recommendation";
      prompt_version = plan.planner_version;
      confidence = confidence_of plan.overall_confidence;
      expected_tool = none;
      selected_tool = first_tool plan.steps;
      selection_reason = some (concat_text ("Generated " ∷ count ∷ " policy-bounded steps." ∷ []));
      human_escalation_reason = plan.escalation_reason;
      failure_type = none;
      final_summary = some (
          concat_text
            ("Plan " ∷ a.texts.uuid_text plan.id ∷ " generated with " ∷ count ∷ " steps." ∷ []));
      work_item_id = some item.id;
      plan_id = some plan.id;
      id = id;
      tool_calls = [];
      blocked_actions =
          map (λ (s : ActionStep). why_blocked s s.why_not)
            (select (λ s. step_status_eq s.status ActionStepStatus.blocked) plan.steps);
    }

unfoldable pub record_plan_run : Assistant → WorkItem → TaskPlan → SecurityContext → M (Option ℕ)
unfolding plan_run add_run
record_plan_run a item plan context =
    if not a.has_runs
    then pure none
    else (do id ← new_uuid; add_run (plan_run a item plan context.actor id); pure (some id))

-- `fingerprint if key else None`
abbrev pub under_key : Option String → String → Option String
under_key none fingerprint = none
under_key (some key) fingerprint = some fingerprint

-- `_generate_plan`: the plan, and the changed work item.
unfoldable pub generate_plan :
    Assistant
    → WorkItem
    → SecurityContext
    → PlanningInput
    → Option String
    → String
    → M (TaskPlan × WorkItem)
unfolding make_plan record_plan_run save_plan save_work_item record_event concat_text show_ℕ
generate_plan a item context inputs key fingerprint = do
  (made, planned) ← make_plan a.texts item context inputs
  run_id ← record_plan_run a planned made context
  let plan =
      let p : TaskPlan = record made {
        agent_run_id = run_id;
        idempotency_key = key;
        idempotency_fingerprint = under_key key fingerprint;
      } in
      p
  save_plan plan
  save_work_item planned
  record_event a planned "plan_generated" context.actor
      (concat_text ("Plan generated with " ∷ show_ℕ (length plan.steps) ∷ " bounded steps." ∷ []))
      run_id
  pure (plan, planned)

unfoldable pub create_step_draft : Assistant → WorkItem → ActionStep → SecurityContext → M (List ℕ)
unfolding draft_type_of create_draft_for_step record_event concat_text draft_text
create_step_draft a item step context = elim (draft_type_of step.action_type) [
  | none ↦ pure []
  | some type ↦ if step_status_eq step.status ActionStepStatus.blocked then pure [] else (do
    draft ← create_draft_for_step item.id step context
    record_event a item "draft_created" context.actor
        (concat_text ("Draft created: " ∷ draft_text draft.draft_type ∷ "." ∷ [])) none
    pure (draft.id ∷ []))
]

unfoldable pub create_step_approval :
    Assistant → WorkItem → ActionStep → SecurityContext → M (List ℕ)
unfolding request_approval_for_step record_event concat_text action_text
create_step_approval a item step context = if not step.requires_approval then pure [] else (do
  approval ← request_approval_for_step item.id step context
  record_event a item "approval_requested" context.actor
      (concat_text ("Human approval requested for " ∷ action_text step.action_type ∷ "." ∷ [])) none
  pure (approval.id ∷ []))

-- The steps one by one: the identifiers of the drafts and of the approvals.
unfoldable pub create_records :
    Assistant → WorkItem → SecurityContext → List ActionStep → M (List ℕ × List ℕ)
unfolding decide_action add_decision create_step_draft create_step_approval
create_records a item context [] = pure ([], [])
create_records a item context (step ∷ steps) = do
  add_decision (
      decide_action
        (record {
          workspace_id = item.workspace_id;
          work_item_id = item.id;
          action = step.action_type;
          action_step_id = some step.id;
          target_workspace_id = none;
          evidence_sufficient = true;
          confirmed = not step.requires_approval;
        })
        context)
  drafts ← create_step_draft a item step context
  approvals ← create_step_approval a item step context
  (more_drafts, more_approvals) ← create_records a item context steps
  pure (drafts ++ more_drafts, approvals ++ more_approvals)
