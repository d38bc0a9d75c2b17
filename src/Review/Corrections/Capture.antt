-- ===== src/Review/Corrections/Capture.antt =====
-- `capture` of backend/app/review/corrections.py: the event of a corrected invoice.

use ai_document_ops_system.Prelude.{
  ℕ, ◌==◌, ltb, ◌&&◌, Option, none, some, String, List, [], ◌∷◌, ◌++◌, str_eq, select, is_empty,
  if◌then◌else◌,
}
use ai_document_ops_system.Prelude.Text.{is_blank, strip}
use ai_document_ops_system.Invoice.Schemas.{InvoiceData}
use ai_document_ops_system.Review.Models.{
  CorrectionSource, CorrectionReasonSource, user, reviewer_request, system_default, CorrectionEvent,
}
use ai_document_ops_system.Runtime.{M, pure, read, write, now, new_uuid, ◌>>=◌, ◌>>◌}
use ai_document_ops_system.Review.Corrections.{correction_diff}

-- `reason and reason.strip()`
unfoldable pub given_reason : Option String → Option String
unfolding is_blank strip
given_reason none = none
given_reason (some reason) = if is_blank reason then none else some (strip reason)

unfoldable pub choose_reason : Option String → Option String → String × CorrectionReasonSource
choose_reason (some reason) requested = (reason, user)
choose_reason none (some requested) = (requested, reviewer_request)
choose_reason none none = ("Corrected while checking the invoice against the PDF.", system_default)

unfoldable pub correction_reason : Option String → Option String → String × CorrectionReasonSource
unfolding given_reason choose_reason
correction_reason reason requested = choose_reason (given_reason reason) (given_reason requested)

-- The events of a document, and the first of the earliest of them.
unfoldable pub events_of : String → ℕ → List CorrectionEvent → List CorrectionEvent
events_of workspace_id document_id events =
    select (λ e. str_eq e.workspace_id workspace_id && e.document_id == document_id) events

unfoldable pub first_created : CorrectionEvent → List CorrectionEvent → CorrectionEvent
first_created best [] = best
first_created best (e ∷ es) =
    first_created (if ltb e.created_at best.created_at then e else best) es

unfoldable pub original_data : InvoiceData → List CorrectionEvent → InvoiceData
unfolding first_created
original_data before [] = before
original_data before (e ∷ es) = (first_created e es).original_ai_data

abbrev append_correction : CorrectionEvent → M (Unit {0})
append_correction e = write (λ t. record t { corrections = t.corrections ++ e ∷ [] })

-- `CorrectionFeedbackService.capture`
unfoldable pub capture :
    String
    → ℕ
    → InvoiceData
    → InvoiceData
    → String
    → Option String
    → CorrectionSource
    → Option String
    → M (Option CorrectionEvent)
unfolding events_of original_data correction_diff correction_reason
capture workspace_id document_id before after actor reason source requested = do
  existing ← read (λ t. events_of workspace_id document_id t.corrections)
  let original_ai = original_data before existing
  let changes = correction_diff original_ai before after
  if is_empty changes then pure none else (do
    let (normalized, reason_source) = correction_reason reason requested
    id ← new_uuid
    created_at ← now
    let event =
        let e : CorrectionEvent = record {
          workspace_id = workspace_id;
          document_id = document_id;
          actor = actor;
          reason = normalized;
          source = source;
          reason_source = reason_source;
          original_ai_data = original_ai;
          before_data = before;
          after_data = after;
          changes = changes;
          schema_version = "reviewer_correction_v1";
          id = id;
          created_at = created_at;
        } in
        e
    append_correction event
    pure (some event))
