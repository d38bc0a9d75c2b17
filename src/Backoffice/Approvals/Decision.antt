-- ===== src/Backoffice/Approvals/Decision.antt =====
-- A decision on an approval stands.
use ai_document_ops_system.Prelude.{
  ℕ, true, Option, some, String, str_eq, ◌≡◌, refl, ap, subst, sym, arith,
}
use ai_document_ops_system.Prelude.Dict.{lookup, insert-same}
use ai_document_ops_system.Backoffice.Approvals.{
  approve_request, reject_request, approval_for_context, approve_by, reject_by, decision_event,
}
use ai_document_ops_system.Backoffice.Models.{Approval, ApprovalStatus, approval_status_eq}
use ai_document_ops_system.Backoffice.Setup.{Assistant}
use ai_document_ops_system.Backoffice.Store.{get_approval, save_approval}
use ai_document_ops_system.Core.Errors.{ok, err, value_error}
use ai_document_ops_system.Core.Security.{SecurityContext}
use ai_document_ops_system.Runtime.{World, transaction}

approved_lem :
    (s : ApprovalStatus) (reviewer : String) (notes : Option String) (approval : Approval)
    (w : World)
    → s ≡ ApprovalStatus.approved
    → approve_by s reviewer notes approval w ≡ (ok approval, w)
unfolding approve_by
approved_lem s reviewer notes approval w h = rw h refl

rejected_lem :
    (s : ApprovalStatus) (reviewer : String) (notes : Option String) (approval : Approval)
    (w : World)
    → s ≡ ApprovalStatus.approved
    → reject_by s reviewer notes approval w ≡ (err value_error, w)
unfolding reject_by
rejected_lem s reviewer notes approval w h = rw h refl

-- A granted approval of the caller's workspace, stored under its own identifier: granting it again
-- gives it as it is, with its first reviewer, time and notes, and changes nothing; and rejecting it
-- raises a `ValueError` and changes no table.
pub granted_stands :
    (a : Assistant) (id : ℕ) (context : SecurityContext) (notes : Option String) (w : World)
    (approval : Approval)
    → lookup id w.tables.approvals ≡ some approval
    → approval.id ≡ id
    → str_eq approval.workspace_id context.workspace_id ≡ true
    → approval.status ≡ ApprovalStatus.approved
    → (approve_request a id context notes w ≡ (ok approval, w))
      × ((reject_request a id context notes w).0 ≡ err value_error)
      × ((reject_request a id context notes w).1.tables ≡ w.tables)
unfolding approve_request reject_request transaction approval_for_context get_approval save_approval
    decision_event
granted_stands a id context notes w approval found own workspace granted =
    let same =
      insert-same approval.id approval w.tables.approvals
        (subst (λ k. lookup k w.tables.approvals ≡ some approval) (sym own) found) in
    (
      rw
          (
            found,
            workspace,
            approved_lem approval.status context.actor notes approval w granted,
            ap (λ s. approval_status_eq s ApprovalStatus.approved) granted,
            same,
          )
          refl,
      rw (found, workspace, rejected_lem approval.status context.actor notes approval w granted)
          refl,
      rw (found, workspace, rejected_lem approval.status context.actor notes approval w granted)
          (ground arith),
    )
