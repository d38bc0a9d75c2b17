-- ===== src/Scenarios/Assistance/Views.antt =====
-- What the interface shows of the work item, and what its planning has to go by.
use ai_document_ops_system.Prelude.{
  ℕ, Bool, ◌≡◌, refl, none, some, String, Option, List, [], ◌∷◌, true, false, str_eq, if◌then◌else◌,
}
use ai_document_ops_system.Prelude.Dict.{lookup}
use ai_document_ops_system.Agent.Routing.{CopilotRequest, route}
use ai_document_ops_system.Agent.Routing.ReadOnly.{IsReadOnly, route-Routed}
use ai_document_ops_system.Backoffice.Execution.Outcome.{context_is}
use ai_document_ops_system.Backoffice.Models.{ApprovalStatus}
use ai_document_ops_system.Backoffice.Projection.{WorkflowProjection, project_workflow}
use ai_document_ops_system.Backoffice.Projection.Stages.{awaits_decision, decision_asked}
use ai_document_ops_system.Core.Errors.{ok}
use ai_document_ops_system.Documents.Status.{DocumentStatus}
use ai_document_ops_system.Runtime.{World}
use ai_document_ops_system.Scenarios.Data.{document}
use ai_document_ops_system.Backoffice.Evidence.{planning_input_from_evidence}
use ai_document_ops_system.Backoffice.Evidence.Sufficient.{Gathers, planning_input-Gathers}
use ai_document_ops_system.Scenarios.Assistance.{item, grant, waiting}

-- The export waits for its approval.
abbrev asking : World
asking = record waiting {
  tables = record waiting.tables {
    approvals = (93, record grant { status = ApprovalStatus.pending }) ∷ [];
  };
}

decision_asked_example :
    (shown : WorkflowProjection) × (project_workflow
        (document 2 DocumentStatus.approved)
        (some item)
        asking
      ≡ (ok shown, asking))
    × (awaits_decision shown ≡ true)
unfolding context_is ai_document_ops_system.Prelude.TextDict.lookup
    ai_document_ops_system.Prelude.Dict.values
decision_asked_example = decision_asked (document 2 DocumentStatus.approved) item asking

planning_input-Gathers_example :
    let (answer, after) = planning_input_from_evidence item none waiting in
    Gathers item (2 ∷ []) waiting.tables answer × (after ≡ waiting)
planning_input-Gathers_example = planning_input-Gathers item none waiting

abbrev asked : CopilotRequest
asked = record {
  message = "Approve the invoice and send it.";
  document_id = none;
  expected_tool = none;
  execute_tool = none;
  confirmed = true;
}

route-Routed_example : IsReadOnly (route (λ text. text) asked).tool_name
route-Routed_example = route-Routed (λ text. text) asked
