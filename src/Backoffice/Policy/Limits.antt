-- ===== src/Backoffice/Policy/Limits.antt =====
-- What an allowed action of the assistant implies, by an account of the actions of its own.
use ai_document_ops_system.Prelude.{
  Bool, true, false, not, ◌&&◌, ◌||◌, Option, none, some, is_none, String, str_eq, eq_iff, ◌≡◌, ◌↔◌,
  ◌⊎◌, inl, refl, arith,
}
use ai_document_ops_system.Prelude.Text.{one_of}
use ai_document_ops_system.Core.Security.{SecurityContext}
use ai_document_ops_system.Backoffice.Policy.{
  ActionType, inspect_queue, explain_document, recommend_review, draft_accounting_note,
  draft_vendor_message, process_document, export_approved_invoice, escalate_to_human,
  block_unsafe_request, PolicyRequest, decide_action, decision, blocked_reason, rule_of,
  is_elsewhere, is_read_only, is_unsafe,
}

-- Who may have an action done: an export is for administrators, processing a document is for them
-- and operators, any other safe action is for reviewers too, and an unsafe request is for nobody.
abbrev pub may_request : ActionType → String → Bool
may_request block_unsafe_request role = false
may_request export_approved_invoice role = str_eq role "admin"
may_request process_document role = str_eq role "admin" || str_eq role "operator"
may_request _ role = str_eq role "admin" || str_eq role "operator" || str_eq role "reviewer"

-- The actions that need no evidence.
abbrev pub only_looks : ActionType → Bool
only_looks inspect_queue = true
only_looks explain_document = true
only_looks _ = false

-- The actions that change the state of documents.
abbrev pub changes_documents : ActionType → Bool
changes_documents process_document = true
changes_documents export_approved_invoice = true
changes_documents _ = false

-- A request that the policy is to allow: by a role that may have the action done and that is not a
-- false claim to be an administrator, in the caller's workspace, aimed at no other workspace, with
-- evidence unless the action only looks, and confirmed if the action changes documents.
pub record IsPermitted (r : PolicyRequest) (c : SecurityContext) : Type 0 where
  pub role : may_request r.action c.role ≡ true
  pub honest_admin : (c.is_admin || not (str_eq c.role "admin")) ≡ true
  pub own_workspace : c.workspace_id ≡ r.workspace_id
  pub own_target : (r.target_workspace_id ≡ none) ⊎ (r.target_workspace_id ≡ some r.workspace_id)
  pub evident : (r.evidence_sufficient || only_looks r.action) ≡ true
  pub confirmed : (r.confirmed || not (changes_documents r.action)) ≡ true

may_request_lem :
    (a : ActionType) (role : String)
    → (not (is_unsafe a) && one_of role (rule_of a).allowed_roles) ≡ may_request a role
unfolding rule_of one_of
may_request_lem inspect_queue role = ground arith
may_request_lem explain_document role = ground arith
may_request_lem recommend_review role = ground arith
may_request_lem draft_accounting_note role = ground arith
may_request_lem draft_vendor_message role = ground arith
may_request_lem process_document role = ground arith
may_request_lem export_approved_invoice role = ground arith
may_request_lem escalate_to_human role = ground arith
may_request_lem block_unsafe_request role = refl

only_looks_lem : (a : ActionType) → is_read_only (rule_of a).autonomy_level ≡ only_looks a
unfolding rule_of
only_looks_lem inspect_queue = refl
only_looks_lem explain_document = refl
only_looks_lem recommend_review = refl
only_looks_lem draft_accounting_note = refl
only_looks_lem draft_vendor_message = refl
only_looks_lem process_document = refl
only_looks_lem export_approved_invoice = refl
only_looks_lem escalate_to_human = refl
only_looks_lem block_unsafe_request = refl

changes_documents_lem : (a : ActionType) → (rule_of a).requires_confirmation ≡ changes_documents a
unfolding rule_of
changes_documents_lem inspect_queue = refl
changes_documents_lem explain_document = refl
changes_documents_lem recommend_review = refl
changes_documents_lem draft_accounting_note = refl
changes_documents_lem draft_vendor_message = refl
changes_documents_lem process_document = refl
changes_documents_lem export_approved_invoice = refl
changes_documents_lem escalate_to_human = refl
changes_documents_lem block_unsafe_request = refl

target_iff :
    (target : Option String) (workspace_id : String)
    → (is_elsewhere target workspace_id ≡ false) ↔ ((target ≡ none) ⊎ (target ≡ some workspace_id))
unfolding is_elsewhere
target_iff none workspace_id = ((λ h. inl refl), (λ h. refl))
target_iff (some target) workspace_id = ground (arith, eq_iff target workspace_id)

decision-allowed :
    (r : PolicyRequest) (c : SecurityContext)
    → (decide_action r c).allowed ≡ is_none (blocked_reason r (rule_of r.action) c)
unfolding decide_action decision
decision-allowed r c = ground arith

-- The policy allows a request exactly when the role may have the action done (an export only an
-- administrator, processing an operator too, an unsafe request nobody) and is not a false claim to
-- be an administrator, the work item is of the caller's workspace, no other workspace is aimed at,
-- the evidence is sufficient unless the action only looks at the queue or a document, and an action
-- that changes documents is confirmed.
pub allowed-IsPermitted :
    (r : PolicyRequest) (c : SecurityContext)
    → ((decide_action r c).allowed ≡ true) ↔ IsPermitted r c
unfolding blocked_reason
allowed-IsPermitted r c = rw (decision-allowed r c) (
  (λ h. record {
    role = ground (arith, h, may_request_lem r.action c.role);
    honest_admin = ground (arith, h);
    own_workspace = ground (arith, h, eq_iff c.workspace_id r.workspace_id);
    own_target = (target_iff r.target_workspace_id r.workspace_id).0 (ground (arith, h));
    evident = ground (arith, h, only_looks_lem r.action);
    confirmed = ground (arith, h, changes_documents_lem r.action);
  }),
  (λ p. ground (
    arith,
    p.role,
    p.honest_admin,
    p.own_workspace,
    (target_iff r.target_workspace_id r.workspace_id).1 p.own_target,
    p.evident,
    p.confirmed,
    may_request_lem r.action c.role,
    only_looks_lem r.action,
    changes_documents_lem r.action,
    eq_iff c.workspace_id r.workspace_id,
  )),
)
