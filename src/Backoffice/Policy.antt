-- ===== src/Backoffice/Policy.antt =====
-- backend/app/backoffice/policy.py: what the assistant may do on its own, with confirmation, or not
-- at all; and the enumerations of models.py that it uses.
pub mod Limits
use ai_document_ops_system.Prelude.{
  ℕ, Bool, true, false, not, ◌&&◌, Option, none, some, String, List, [], ◌∷◌, str_eq, if◌then◌else◌,
}
use ai_document_ops_system.Prelude.Text.{one_of}
use ai_document_ops_system.Core.Security.{SecurityContext}

pub data ActionType : Type 0 where
  inspect_queue explain_document recommend_review draft_accounting_note : ActionType
  draft_vendor_message process_document export_approved_invoice : ActionType
  escalate_to_human block_unsafe_request : ActionType

-- `ActionType.value`
unfoldable pub action_text : ActionType → String
action_text inspect_queue = "inspect_queue"
action_text explain_document = "explain_document"
action_text recommend_review = "recommend_review"
action_text draft_accounting_note = "draft_accounting_note"
action_text draft_vendor_message = "draft_vendor_message"
action_text process_document = "process_document"
action_text export_approved_invoice = "export_approved_invoice"
action_text escalate_to_human = "escalate_to_human"
action_text block_unsafe_request = "block_unsafe_request"

pub data AutonomyLevel : Type 0 where
  read_only recommend draft confirm_execute blocked : AutonomyLevel

pub data ActionRiskLevel : Type 0 where
  low medium high risk_blocked : ActionRiskLevel

pub record ActionPolicyRule : Type 0 where
  pub autonomy_level : AutonomyLevel
  pub risk_level : ActionRiskLevel
  pub requires_confirmation : Bool
  pub allowed_roles : List String
  pub reason : String

abbrev everyone : List String
everyone = "admin" ∷ "operator" ∷ "reviewer" ∷ []

abbrev rule : AutonomyLevel → ActionRiskLevel → Bool → List String → String → ActionPolicyRule
rule level risk confirmation roles reason = record {
  autonomy_level = level;
  risk_level = risk;
  requires_confirmation = confirmation;
  allowed_roles = roles;
  reason = reason;
}

-- `ACTION_POLICY_RULES`
unfoldable pub rule_of : ActionType → ActionPolicyRule
rule_of inspect_queue =
    rule read_only low false everyone "Read-only queue inspection does not mutate workflow state."
rule_of explain_document =
    rule read_only low false everyone
      "Document explanation is read-only and scoped to the caller workspace."
rule_of recommend_review =
    rule recommend low false everyone "Recommendation creates no side effect and requires evidence."
rule_of draft_accounting_note =
    rule draft medium false everyone
      "Drafting an accounting note has no external side effect until approved."
rule_of draft_vendor_message =
    rule draft medium false everyone
      "Drafting a vendor message is reviewable and does not send anything."
rule_of process_document =
    rule confirm_execute high true ("admin" ∷ "operator" ∷ [])
      "Processing mutates document workflow state and requires confirmation."
rule_of export_approved_invoice =
    rule confirm_execute high true ("admin" ∷ [])
      "Export is a high-risk business action and requires admin confirmation."
rule_of escalate_to_human =
    rule recommend medium false everyone
      "Human escalation is allowed when evidence or confidence is insufficient."
rule_of block_unsafe_request =
    rule blocked risk_blocked false everyone
      "Unsafe requests must be refused instead of routed to execution."

-- `target_workspace_id is not None and target_workspace_id != workspace_id`
unfoldable pub is_elsewhere : Option String → String → Bool
is_elsewhere none workspace_id = false
is_elsewhere (some target) workspace_id = not (str_eq target workspace_id)

abbrev is_unsafe : ActionType → Bool
is_unsafe block_unsafe_request = true
is_unsafe _ = false

abbrev is_read_only : AutonomyLevel → Bool
is_read_only read_only = true
is_read_only _ = false

-- A request for a decision: the action, the workspace of the work item and the other arguments.
pub record PolicyRequest : Type 0 where
  pub workspace_id : String
  pub work_item_id : ℕ
  pub action : ActionType
  pub action_step_id : Option ℕ
  pub target_workspace_id : Option String
  pub evidence_sufficient : Bool
  pub confirmed : Bool

unfoldable pub blocked_reason : PolicyRequest → ActionPolicyRule → SecurityContext → Option String
unfolding is_elsewhere one_of
blocked_reason r policy context =
    if is_unsafe r.action
    then some "Action is explicitly classified as unsafe and must be blocked."
    else if not (str_eq context.workspace_id r.workspace_id)
    then some "Caller workspace does not match the work item workspace."
    else if is_elsewhere r.target_workspace_id r.workspace_id
    then some "Cross-workspace action target is not allowed."
    else if str_eq context.role "admin" && not context.is_admin
    then some "Claimed admin role does not have admin access."
    else if not (one_of context.role policy.allowed_roles)
    then some "Current role is not allowed to perform this action."
    else if not r.evidence_sufficient && not (is_read_only policy.autonomy_level)
    then some "Insufficient evidence; escalate to a human before continuing."
    else if policy.requires_confirmation && not r.confirmed
    then some "Explicit confirmation is required before this action can execute."
    else none

pub record PolicyDecision : Type 0 where
  pub workspace_id : String
  pub work_item_id : ℕ
  pub action_type : ActionType
  pub action_step_id : Option ℕ
  pub autonomy_level : AutonomyLevel
  pub risk_level : ActionRiskLevel
  pub allowed : Bool
  pub requires_confirmation : Bool
  pub reason : String

unfoldable pub decision : PolicyRequest → ActionPolicyRule → Option String → PolicyDecision
decision r policy (some why) = record {
  workspace_id = r.workspace_id;
  work_item_id = r.work_item_id;
  action_type = r.action;
  action_step_id = r.action_step_id;
  autonomy_level = blocked;
  risk_level = risk_blocked;
  allowed = false;
  requires_confirmation = policy.requires_confirmation && not r.confirmed;
  reason = why;
}
decision r policy none = record {
  workspace_id = r.workspace_id;
  work_item_id = r.work_item_id;
  action_type = r.action;
  action_step_id = r.action_step_id;
  autonomy_level = policy.autonomy_level;
  risk_level = policy.risk_level;
  allowed = true;
  requires_confirmation = policy.requires_confirmation && not r.confirmed;
  reason = policy.reason;
}

-- `AutonomyPolicyEngine.decide`
unfoldable pub decide_action : PolicyRequest → SecurityContext → PolicyDecision
unfolding rule_of blocked_reason decision
decide_action r context =
    let policy = rule_of r.action in decision r policy (blocked_reason r policy context)
