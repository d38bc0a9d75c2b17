-- ===== src/Backoffice/Setup.antt =====
-- What the services of backend/app/backoffice share: their configuration, the texts of UUIDs and
-- times, changes of a work item and the recording of events (services.py, models.py).
use ai_document_ops_system.Prelude.{
  ℕ, Bool, Option, none, some, String, List, [], ◌∷◌, ◌==◌, str_eq, if◌then◌else◌,
}
use ai_document_ops_system.Prelude.TextDict.{insert}
use ai_document_ops_system.Agent.Contracts.{AgentToolName, AgentToolResponse}
use ai_document_ops_system.Backoffice.Models.{WorkItem, ActionStep, WorkType}
use ai_document_ops_system.Backoffice.Store.{get_work_item, add_workflow_event}
use ai_document_ops_system.Core.Errors.{guard, not_found}
use ai_document_ops_system.Core.Security.{SecurityContext}
use ai_document_ops_system.Runtime.{M, pure, lift, now, new_uuid, ◌>>=◌, ◌>>◌}

-- `datetime.fromisoformat`: no time, a time without a zone, or an instant.
pub data ParsedTime : Type 0 where
  invalid naive : ParsedTime
  instant : ℕ → ParsedTime

-- `str(uuid)`, `uuid.hex`, `UUID(text)`, `datetime.isoformat()` and its inverse, and
-- `str.lower`.
pub record Texts : Type 0 where
  pub uuid_text : ℕ → String
  pub uuid_hex : ℕ → String
  pub parse_uuid : String → Option ℕ
  pub iso_text : ℕ → String
  pub parse_iso : String → ParsedTime
  pub lower : String → String

pub record ToolExecutionRequest : Type 0 where
  pub tool_name : AgentToolName
  pub document_id : Option ℕ
  pub confirmed : Bool

-- The parts of a request that its fingerprint covers.
pub record WorkItemIdentity : Type 0 where
  pub title : String
  pub work_type : Option WorkType
  pub linked_document_ids : List ℕ
  pub business_context : List (String × String)

pub record PlanningInput : Type 0 where
  pub requested_outcome : Option String
  pub evidence_sufficient : Bool
  pub approved_for_export : Bool
  pub missing_fields : List String
  pub selected_document_id : Option ℕ

-- The configuration: which optional repositories there are, the executor of the tools, which may
-- raise and do anything (the renewals by the heartbeat thread included), and the hash of the JSON
-- text of a request.
pub record Assistant : Type 0 where
  pub texts : Texts
  pub has_events : Bool
  pub has_runs : Bool
  pub has_documents : Bool
  pub tool_executor : Option (ToolExecutionRequest → SecurityContext → M AgentToolResponse)
  pub work_item_fingerprint : WorkItemIdentity → String
  pub planning_fingerprint : PlanningInput → SecurityContext → String

-- `WorkItem.attach_context`
unfoldable pub attach_context : String → String → WorkItem → M WorkItem
attach_context key value item = do
  at ← now
  pure (record item { business_context = insert key value item.business_context; updated_at = at })

-- `_get_work_item_for_context`
unfoldable pub work_item_for_context : ℕ → SecurityContext → M WorkItem
unfolding get_work_item
work_item_for_context id context = do
  item ← get_work_item id
  lift (guard (str_eq item.workspace_id context.workspace_id) not_found)
  pure item

unfoldable pub find_step : ℕ → List ActionStep → Option ActionStep
find_step id [] = none
find_step id (s ∷ steps) = if s.id == id then some s else find_step id steps

-- The steps with a change of the first of that identifier, which the source makes in place.
unfoldable pub set_step : ActionStep → List ActionStep → List ActionStep
set_step step [] = []
set_step step (s ∷ steps) = if s.id == step.id then step ∷ steps else s ∷ set_step step steps

-- `work_item.linked_document_ids or (None,)`
abbrev event_documents : List ℕ → List (Option ℕ)
event_documents [] = none ∷ []
event_documents (id ∷ ids) = some id ∷ more ids
  where
    more : List ℕ → List (Option ℕ)
    more [] = []
    more (j ∷ js) = some j ∷ more js

unfoldable pub add_events :
    WorkItem → String → String → String → Option ℕ → List (Option ℕ) → M (Unit {0})
unfolding add_workflow_event
add_events item event_type actor summary run_id [] = pure tt
add_events item event_type actor summary run_id (document_id ∷ ids) = do
  id ← new_uuid
  at ← now
  add_workflow_event (record {
    workspace_id = item.workspace_id;
    event_type = event_type;
    actor = actor;
    summary = summary;
    document_id = document_id;
    work_item_id = some item.id;
    agent_run_id = run_id;
    id = id;
    created_at = at;
  })
  add_events item event_type actor summary run_id ids

-- `BackofficeWorkflowService._record_event`
unfoldable pub record_event :
    Assistant → WorkItem → String → String → String → Option ℕ → M (Unit {0})
unfolding add_events
record_event a item event_type actor summary run_id =
    if a.has_events
    then add_events item event_type actor summary run_id (event_documents item.linked_document_ids)
    else pure tt
