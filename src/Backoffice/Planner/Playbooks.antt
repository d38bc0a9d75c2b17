-- ===== src/Backoffice/Planner/Playbooks.antt =====
-- The plan for each kind of work: backend/app/backoffice/planner.py.
use ai_document_ops_system.Prelude.{
  true, not, ◌||◌, Option, none, some, is_some, String, [], ◌∷◌, is_empty, if◌then◌else◌,
}
use ai_document_ops_system.Prelude.Text.{concat_text, join_text}
use ai_document_ops_system.Backoffice.Models.{WorkItem, WorkType, TaskPlan}
use ai_document_ops_system.Backoffice.Policy.{
  inspect_queue, explain_document, recommend_review, draft_accounting_note, draft_vendor_message,
  export_approved_invoice, escalate_to_human,
}
use ai_document_ops_system.Backoffice.Setup.{Texts, PlanningInput}
use ai_document_ops_system.Core.Security.{SecurityContext}
use ai_document_ops_system.Runtime.{M, pure, now, new_uuid, ◌>>=◌}
use ai_document_ops_system.Backoffice.Planner.{
  planner_version, classify_work_type, classify, set_current_plan, base_step, block_step, add_step,
  add_new_step,
}

abbrev escalated : String → TaskPlan → TaskPlan
escalated reason plan = record plan { escalation_reason = some reason }

unfoldable pub add_invoice_review_steps :
    WorkItem → SecurityContext → PlanningInput → TaskPlan → M TaskPlan
unfolding add_new_step
add_invoice_review_steps item context inputs plan = do
  explained ←
      add_new_step item context explain_document (not (is_empty item.linked_document_ids))
        "Review starts by explaining the linked document and validation evidence."
        "Do not approve or export before review evidence is understood." plan
  add_new_step item context recommend_review inputs.evidence_sufficient
      "The next safe step is a recommendation, not direct mutation."
      "Direct execution is unnecessary for an invoice review plan." explained

unfoldable pub add_invoice_export_steps :
    WorkItem → SecurityContext → PlanningInput → TaskPlan → M TaskPlan
unfolding add_new_step base_step block_step add_step
add_invoice_export_steps item context inputs plan = do
  inspected ←
      add_new_step item context inspect_queue true
        "Export planning should first inspect available approved work."
        "Do not export until approval state has been checked." plan
  if not inputs.approved_for_export
      then (do
        step ←
            base_step export_approved_invoice "Export was requested."
              "Not recommended: export requires an approved invoice first."
        refused ← block_step "Invoice is not approved for export." step
        add_step refused (escalated "Invoice export requires approved invoice evidence." inspected))
      else add_new_step item context export_approved_invoice true
          "Approved invoice evidence exists, so export can be prepared."
          "Do not run export without explicit admin confirmation." inspected

unfoldable pub explain_if_linked :
    WorkItem → SecurityContext → String → String → TaskPlan → M TaskPlan
unfolding add_new_step
explain_if_linked item context why_this why_not plan =
    if is_empty item.linked_document_ids
    then pure plan
    else add_new_step item context explain_document true why_this why_not plan

unfoldable pub add_accounting_note_steps :
    WorkItem → SecurityContext → PlanningInput → TaskPlan → M TaskPlan
unfolding explain_if_linked add_new_step
add_accounting_note_steps item context inputs plan = do
  explained ←
      explain_if_linked item context "The accounting note should be grounded in document evidence."
        "Do not draft a note from unsupported assumptions." plan
  add_new_step item context draft_accounting_note inputs.evidence_sufficient
      "Drafting a note creates a reviewable artifact without external side effects."
      "Do not post the note automatically." explained

unfoldable pub add_vendor_follow_up_steps :
    WorkItem → SecurityContext → PlanningInput → TaskPlan → M TaskPlan
unfolding explain_if_linked add_new_step concat_text join_text
add_vendor_follow_up_steps item context inputs plan = do
  explained ←
      explain_if_linked item context
        "The follow-up draft should cite the missing document evidence."
        "Do not ask the vendor for fields that are already present." plan
  add_new_step item context draft_vendor_message true
      (concat_text (
        "Draft a vendor follow-up for "
        ∷ (if is_empty inputs.missing_fields
            then "missing evidence"
            else join_text ", " inputs.missing_fields)
        ∷ "."
        ∷ []))
      "Do not send the message automatically; keep it reviewable." explained

-- The plan that leaves the work item to a person.
unfoldable pub add_escalation :
    WorkItem → SecurityContext → String → String → String → TaskPlan → M TaskPlan
unfolding add_new_step
add_escalation item context reason why_this why_not plan =
    add_new_step item context escalate_to_human true why_this why_not (escalated reason plan)

unfoldable pub add_missing_evidence : WorkItem → SecurityContext → TaskPlan → M TaskPlan
unfolding add_escalation
add_missing_evidence item context plan =
    add_escalation item context "Insufficient evidence for safe planning."
      "Human review is safer when evidence is missing or confidence is low."
      "Do not create mutating or outbound actions without enough evidence." plan

unfoldable pub add_steps :
    WorkType → WorkItem → SecurityContext → PlanningInput → TaskPlan → M TaskPlan
unfolding add_invoice_review_steps add_invoice_export_steps add_accounting_note_steps
    add_vendor_follow_up_steps add_escalation add_missing_evidence
add_steps WorkType.invoice_review item context inputs plan =
    add_invoice_review_steps item context inputs plan
add_steps WorkType.invoice_export item context inputs plan =
    add_invoice_export_steps item context inputs plan
add_steps WorkType.accounting_note item context inputs plan =
    add_accounting_note_steps item context inputs plan
add_steps WorkType.vendor_follow_up item context inputs plan =
    add_vendor_follow_up_steps item context inputs plan
add_steps WorkType.exception_handling item context inputs plan =
    add_escalation item context
      "Unsupported work type for deterministic planner: exception_handling."
      "The planner does not have a safe deterministic workflow for this case."
      "Do not invent an autonomous workflow outside the supported playbook." plan
add_steps WorkType.insufficient_evidence item context inputs plan =
    add_missing_evidence item context plan

abbrev confidence_for : WorkItem → PlanningInput → String
confidence_for item inputs =
    if not inputs.evidence_sufficient
    then "low"
    else if not (is_empty inputs.missing_fields)
    then "medium"
    else if is_some item.work_type || not (is_empty item.linked_document_ids)
    then "high"
    else "medium"

unfoldable pub new_plan : WorkItem → PlanningInput → M TaskPlan
new_plan item inputs = do
  id ← new_uuid
  created_at ← now
  updated_at ← now
  pure (record {
    workspace_id = item.workspace_id;
    work_item_id = item.id;
    planner_version = planner_version;
    steps = [];
    overall_confidence = confidence_for item inputs;
    escalation_reason = none;
    idempotency_key = none;
    idempotency_fingerprint = none;
    agent_run_id = none;
    id = id;
    created_at = created_at;
    updated_at = updated_at;
  })

-- The kind of work, and the work item that has it.
unfoldable pub classified :
    Texts → WorkItem → PlanningInput → Option WorkType → M (WorkType × WorkItem)
unfolding classify_work_type classify
classified texts item inputs (some work_type) = pure (work_type, item)
classified texts item inputs none = do
  let work_type = classify_work_type texts item inputs
  changed ← classify work_type item
  pure (work_type, changed)

-- `BackofficePlanner.plan`: the plan, and the changed work item.
unfoldable pub make_plan :
    Texts → WorkItem → SecurityContext → PlanningInput → M (TaskPlan × WorkItem)
unfolding classified new_plan add_missing_evidence add_steps set_current_plan
make_plan texts item context inputs = do
  (work_type, known) ← classified texts item inputs item.work_type
  empty ← new_plan known inputs
  plan ←
      (if inputs.evidence_sufficient
        then add_steps work_type known context inputs empty
        else add_missing_evidence known context empty)
  planned ← set_current_plan plan.id known
  pure (plan, planned)
