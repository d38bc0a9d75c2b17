-- ===== src/Scenarios/Assistance.antt =====
-- The assistant on a work item whose plan exports an approved invoice.
pub mod Views
use ai_document_ops_system.Prelude.{
  ℕ, Bool, ◌≡◌, refl, none, some, String, Option, List, [], ◌∷◌, true, false, str_eq, if◌then◌else◌,
}
use ai_document_ops_system.Prelude.Dict.{lookup}
use ai_document_ops_system.Agent.Contracts.{
  AgentToolResponse, AgentToolName, AgentToolRisk, AgentConfidence,
}
use ai_document_ops_system.Backoffice.Approvals.{approve_request, reject_request}
use ai_document_ops_system.Backoffice.Approvals.Decision.{granted_stands}
use ai_document_ops_system.Backoffice.Execution.Reserving.{Reservation, reserve_approved_execution}
use ai_document_ops_system.Backoffice.Execution.Approved.{IsExecutable, reserved_only}
use ai_document_ops_system.Backoffice.Execution.Outcome.{
  context_is, execute_approved_step, finalize_reserved_execution, mark_unknown,
  renew_execution_reservation,
}
use ai_document_ops_system.Backoffice.Execution.Safety.{
  IsTarget, settled_not_run, superseded_silent,
}
use ai_document_ops_system.Backoffice.Models.{
  WorkItem, WorkItemSourceType, WorkItemPriority, WorkItemStatus, WorkType, ActionStep,
  ActionStepStatus, step_status_eq, TaskPlan, Approval, ApprovalStatus,
}
use ai_document_ops_system.Backoffice.Planner.Guarded.{IsGuardedResult}
use ai_document_ops_system.Backoffice.Planner.Guarded.Totality.{make_plan_guarded}
use ai_document_ops_system.Backoffice.Planner.Playbooks.{make_plan}
use ai_document_ops_system.Backoffice.Policy.{export_approved_invoice, high}
use ai_document_ops_system.Backoffice.Recovery.{reconcile_execution}
use ai_document_ops_system.Backoffice.Recovery.Final.{outcome_final}
use ai_document_ops_system.Backoffice.Setup.{Assistant, Texts, instant, PlanningInput}
use ai_document_ops_system.Backoffice.Projection.{WorkflowProjection, project_workflow}
use ai_document_ops_system.Backoffice.Projection.Stages.{awaits_decision, decision_asked}
use ai_document_ops_system.Core.Errors.{ok, err, value_error}
use ai_document_ops_system.Documents.Status.{DocumentStatus}
use ai_document_ops_system.Runtime.{World, pure}
use ai_document_ops_system.Runtime.Yields.{OfOk, Returned}
use ai_document_ops_system.Scenarios.Data.{world, tables, document, admin_context}

abbrev texts : Texts
texts = record {
  uuid_text = λ id. "u";
  uuid_hex = λ id. "h";
  parse_uuid = λ text. some 91;
  iso_text = λ at. "t";
  parse_iso = λ text. instant 0;
  lower = λ text. text;
}

abbrev exported_response : AgentToolResponse
exported_response = record {
  tool_name = AgentToolName.export_approved_csv;
  status = "success";
  risk = AgentToolRisk.admin_action;
  summary = "Exported.";
  confidence = AgentConfidence.high;
  evidence = [];
  requires_follow_up = false;
  error_code = none;
  failure_type = none;
  retryable = false;
  human_escalation_reason = none;
}

abbrev assistant : Assistant
assistant = record {
  texts = texts;
  has_events = true;
  has_runs = true;
  has_documents = true;
  tool_executor = some (λ request context. pure exported_response);
  work_item_fingerprint = λ identity. "f";
  planning_fingerprint = λ inputs context. "f";
}

abbrev step : ActionStepStatus → ActionStep
step status = record {
  action_type = export_approved_invoice;
  risk_level = high;
  tool_name = none;
  requires_approval = true;
  status = status;
  why_this = none;
  why_not = none;
  id = 92;
  created_at = 1;
  updated_at = 1;
}

abbrev plan : ActionStepStatus → TaskPlan
plan status = record {
  workspace_id = "ws";
  work_item_id = 90;
  planner_version = "v";
  steps = step status ∷ [];
  overall_confidence = "high";
  escalation_reason = none;
  idempotency_key = none;
  idempotency_fingerprint = none;
  agent_run_id = none;
  id = 91;
  created_at = 1;
  updated_at = 1;
}

abbrev item : WorkItem
item = record {
  workspace_id = "ws";
  title = "Export";
  source_type = WorkItemSourceType.document;
  work_type = some WorkType.invoice_export;
  priority = WorkItemPriority.normal;
  status = WorkItemStatus.planning;
  linked_document_ids = 2 ∷ [];
  business_context = ("execution_token", "new") ∷ [];
  current_plan_id = some 91;
  idempotency_key = none;
  idempotency_fingerprint = none;
  id = 90;
  created_at = 1;
  updated_at = 1;
}

abbrev grant : Approval
grant = record {
  workspace_id = "ws";
  work_item_id = 90;
  requested_by = "Operator";
  action_step_id = some 92;
  draft_id = none;
  status = ApprovalStatus.approved;
  reviewed_by = some "Administrator";
  reviewer_notes = none;
  reviewed_at = some 3;
  id = 93;
  created_at = 2;
  updated_at = 3;
}

abbrev office : ActionStepStatus → World
office status = record world {
  tables = record tables {
    work_items = (90, item) ∷ [];
    plans = (91, plan status) ∷ [];
    approvals = (93, grant) ∷ [];
  };
}

abbrev waiting : World
waiting = office ActionStepStatus.waiting_for_approval

abbrev reserved : Reservation
reserved = record {
  work_item = record item {
    status = WorkItemStatus.executing;
    business_context =
        ("execution_token", "h")
        ∷ ("execution_outcome", "in_flight")
        ∷ ("execution_heartbeat_at", "t")
        ∷ ("execution_plan_id", "u")
        ∷ ("execution_step_id", "u")
        ∷ [];
    updated_at = 10;
  };
  plan_id = 91;
  step = record (step ActionStepStatus.executing) { updated_at = 10 };
  tool_name = AgentToolName.export_approved_csv;
  execution_token = "h";
}

reserved_only_example :
    (i : WorkItem) × (p : TaskPlan) × (s : ActionStep) × IsTarget 90 92 admin_context waiting.tables
      i p s
    × IsExecutable assistant i s waiting.tables
unfolding reserve_approved_execution lookup ai_document_ops_system.Prelude.Dict.values
    ai_document_ops_system.Prelude.TextDict.insert
reserved_only_example = reserved_only assistant 90 92 admin_context waiting reserved refl

target :
    IsTarget 90 92 admin_context
      (office ActionStepStatus.executed).tables
      item
      (plan ActionStepStatus.executed)
      (step ActionStepStatus.executed)
unfolding lookup ai_document_ops_system.Backoffice.Setup.find_step
target = record {
  found_item = refl;
  same_workspace = refl;
  plan_id = 91;
  is_current = refl;
  found_plan = refl;
  found_step = refl;
}

settled_not_run_example :
    let before = office ActionStepStatus.executed in
    let again = execute_approved_step assistant 90 92 admin_context before in
    (again.1 ≡ before)
    × Returned
        (λ r.
          str_eq r.status "success"
          ≡ step_status_eq ActionStepStatus.executed ActionStepStatus.executed)
        again.0
unfolding ai_document_ops_system.Backoffice.Execution.Safety.is_settled
settled_not_run_example =
    settled_not_run assistant 90 92 admin_context (office ActionStepStatus.executed) item
      (plan ActionStepStatus.executed) (step ActionStepStatus.executed) target refl

superseded_silent_example :
    let before = office ActionStepStatus.executing in
    ((finalize_reserved_execution assistant reserved exported_response admin_context before).1
      ≡ before)
    × OfOk
        (λ x. str_eq x.status "blocked" ≡ true)
        (finalize_reserved_execution assistant reserved exported_response admin_context before).0
    × ((mark_unknown assistant reserved admin_context before).1 ≡ before)
    × ((renew_execution_reservation assistant reserved admin_context before).1 ≡ before)
    × OfOk (λ x. x ≡ false) (renew_execution_reservation assistant reserved admin_context before).0
unfolding lookup ai_document_ops_system.Backoffice.Execution.Outcome.context_is
superseded_silent_example =
    superseded_silent assistant reserved exported_response admin_context
      (office ActionStepStatus.executing) item refl refl

abbrev inputs : PlanningInput
inputs = record {
  requested_outcome = none;
  evidence_sufficient = true;
  approved_for_export = true;
  missing_fields = [];
  selected_document_id = none;
}

make_plan_guarded_example :
    Returned IsGuardedResult (make_plan texts item admin_context inputs world).0
make_plan_guarded_example = make_plan_guarded texts item admin_context inputs world

outcome_final_example :
    let before = office ActionStepStatus.failed in
    let stated = reconcile_execution assistant 90 92 admin_context true "It arrived." before in
    (stated.1 ≡ before)
    × OfOk
        (λ i.
          (i ≡ item)
          × (ActionStepStatus.failed
              ≡ (if true then ActionStepStatus.executed else ActionStepStatus.failed)))
        stated.0
unfolding lookup ai_document_ops_system.Backoffice.Recovery.plan_containing_step
    ai_document_ops_system.Backoffice.Setup.find_step
outcome_final_example =
    outcome_final assistant 90 92 admin_context true "It arrived." (office ActionStepStatus.failed)
      item (plan ActionStepStatus.failed) (step ActionStepStatus.failed) refl refl refl refl

granted_stands_example :
    (approve_request assistant 93 admin_context (some "again") waiting ≡ (ok grant, waiting))
    × ((reject_request assistant 93 admin_context (some "again") waiting).0 ≡ err value_error)
    × ((reject_request assistant 93 admin_context (some "again") waiting).1.tables ≡ waiting.tables)
unfolding lookup
granted_stands_example =
    granted_stands assistant 93 admin_context (some "again") waiting grant refl refl refl refl
