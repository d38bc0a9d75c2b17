-- ===== src/Integrations/Redelivery.antt =====
-- A delivery that has succeeded, asked for again.
use ai_document_ops_system.Prelude.{
  ℕ, true, false, Option, some, String, ◌==◌, ◌≡◌, refl, str_eq, if◌then◌else◌,
}
use ai_document_ops_system.Prelude.Dict.{lookup}
use ai_document_ops_system.Prelude.Text.{is_empty_text}
use ai_document_ops_system.Core.Errors.{Error, ok}
use ai_document_ops_system.Core.Security.{SecurityContext, require_admin}
use ai_document_ops_system.Documents.Contracts.{StoredExtraction}
use ai_document_ops_system.Documents.Models.{DocumentRecord, ReviewTask}
use ai_document_ops_system.Documents.Repositories.{get_document, get_extraction, find_review_task}
use ai_document_ops_system.Documents.Status.{exported}
use ai_document_ops_system.Documents.Workflow.{workspace_document}
use ai_document_ops_system.Integrations.Adapter.{Connection, is_erp}
use ai_document_ops_system.Integrations.Executor.{mark_document_exported}
use ai_document_ops_system.Integrations.Models.{succeeded, IntegrationDeliveryRecord}
use ai_document_ops_system.Integrations.Payload.{
  given, evidence_in, payload_for_document, payload_of, normalize_idempotency_key,
  derived_delivery_key, require_approval_evidence,
}
use ai_document_ops_system.Integrations.Repository.{find_delivery, get_by_key}
use ai_document_ops_system.Integrations.Service.{
  IntegrationSendResult, approved_review, hashed_payload, handle_existing_delivery,
  continue_delivery, replay_success,
}
use ai_document_ops_system.Integrations.Service.Sending.{send_approved_invoice, send_under_key}
use ai_document_ops_system.Invoice.Validation.{has_errors}
use ai_document_ops_system.Runtime.{World, Tables}

-- The document was exported by the delivery that holds the key, and nothing it was made of has
-- changed since.
pub record IsDelivered (c : Connection) (id : ℕ) (context : SecurityContext)
    (given_key : Option String) (t : Tables) : Type 0 where
  pub document : DocumentRecord
  pub found : lookup id t.documents ≡ some document
  pub same_workspace : str_eq document.workspace_id context.workspace_id ≡ true
  pub is_exported : document.status ≡ exported
  pub review : ReviewTask
  pub evident : evidence_in (lookup document.id t.reviews) ≡ given review
  pub stored : StoredExtraction
  pub extracted : lookup document.id t.extractions ≡ some stored
  pub no_errors : has_errors stored.validation_report ≡ false
  pub key : String
  pub key_lem :
      normalize_idempotency_key
        (if is_erp c then some (derived_delivery_key c.rendering document review.id) else given_key)
      ≡ ok key
  pub delivery : IntegrationDeliveryRecord
  pub held : find_delivery context.workspace_id c.adapter.name key t.deliveries ≡ some delivery
  pub done : delivery.status ≡ succeeded
  pub same_document : (delivery.document_id == document.id) ≡ true
  pub payload_hash : String
  pub hashed :
      c.adapter.payload_hash
        (payload_of c.rendering document stored.extraction_result.extraction.invoice)
      ≡ ok payload_hash
  pub same_payload : str_eq delivery.payload_hash payload_hash ≡ true
  pub external_id : String
  pub acknowledged : delivery.external_id ≡ some external_id
  pub is_filled : is_empty_text external_id ≡ false

-- The receipt of the stored delivery.
abbrev pub receipt :
    (c : Connection) (id : ℕ) (context : SecurityContext) (given_key : Option String) (t : Tables)
    → IsDelivered c id context given_key t
    → IntegrationSendResult
receipt c id context given_key t h = record {
  document = h.document;
  integration_result = record {
    adapter_name = h.delivery.adapter_name;
    external_id = h.external_id;
    status = if is_erp c then "draft_created" else "sent";
    retryable = false;
    external_url = h.delivery.external_url;
    provider_docstatus = h.delivery.provider_docstatus;
    provider_updated_at = h.delivery.provider_updated_at;
  };
  delivery = h.delivery;
  replayed = true;
}

-- An administrator who sends a document again that the delivery under its key has exported, where
-- nothing the delivery was made of has changed since, gets the receipt of that delivery, marked as
-- replayed; the whole world is as before, so nothing is sent twice.
pub delivered_once :
    (c : Connection) (reason : Error → String) (id : ℕ) (context : SecurityContext)
    (given_key : Option String) (w : World) (h : IsDelivered c id context given_key w.tables)
    → context.is_admin ≡ true
    → send_approved_invoice c reason id context given_key w
      ≡ (ok (receipt c id context given_key w.tables h), w)
unfolding send_approved_invoice require_admin workspace_document get_document
    require_approval_evidence find_review_task approved_review get_by_key hashed_payload
    payload_for_document get_extraction send_under_key handle_existing_delivery continue_delivery
    replay_success mark_document_exported ai_document_ops_system.Integrations.Payload.is_missing
delivered_once c reason id context given_key w h admin =
    rw
      (
        admin, h.found, h.same_workspace, h.is_exported, h.evident, h.key_lem, h.held, h.extracted,
        h.no_errors, h.hashed, h.same_document, h.same_payload, h.done, h.acknowledged, h.is_filled,
      )
      refl
