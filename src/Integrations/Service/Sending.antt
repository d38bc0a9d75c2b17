-- ===== src/Integrations/Service/Sending.antt =====
-- `send_approved_invoice`, `get_delivery` and `reconcile_provider_delivery` of
-- backend/app/integrations/services.py.
use ai_document_ops_system.Prelude.{
  ℕ, Bool, true, false, ◌&&◌, ◌||◌, Option, none, some, is_some, String, [], ◌∷◌, if◌then◌else◌,
}
use ai_document_ops_system.Prelude.Text.{concat_text}
use ai_document_ops_system.Core.Errors.{
  Error, guard, require_some, not_found, invalid_status_transition,
}
use ai_document_ops_system.Core.Security.{SecurityContext, require_admin}
use ai_document_ops_system.Documents.Models.{DocumentRecord}
use ai_document_ops_system.Documents.Repositories.{add_audit}
use ai_document_ops_system.Documents.Status.{DocumentStatus, status_eq}
use ai_document_ops_system.Documents.Workflow.{workspace_document}
use ai_document_ops_system.Integrations.Adapter.{
  Connection, is_erp, integration_audit, key_fingerprint,
}
use ai_document_ops_system.Integrations.Executor.Reconciling.{reconcile_provider}
use ai_document_ops_system.Integrations.Models.{
  IntegrationInvoicePayload, IntegrationDeliveryStatus, IntegrationDeliveryRecord,
  delivery_status_eq,
}
use ai_document_ops_system.Integrations.Payload.{
  payload_for_document, normalize_idempotency_key, derived_delivery_key, require_approval_evidence,
}
use ai_document_ops_system.Integrations.Repository.{get_by_key, reserve, get_for_document}
use ai_document_ops_system.Runtime.{M, pure, lift, try, now, new_uuid, ◌>>=◌, ◌>>◌}
use ai_document_ops_system.Integrations.Service.{
  IntegrationSendResult, audit_erp, approved_review, hashed_payload, on_blocked, deliver_result,
  handle_existing_delivery,
}

-- `c` is the connection to the provider, `reason` gives the message of an exception that the
-- adapter raised.
module _ (c : Connection) (reason : Error → String) where
  unfoldable pub send_reserved :
      DocumentRecord
      → IntegrationInvoicePayload
      → String
      → SecurityContext
      → IntegrationDeliveryRecord × Bool
      → M IntegrationSendResult
  unfolding handle_existing_delivery is_erp integration_audit add_audit concat_text key_fingerprint
      deliver_result
  send_reserved document payload payload_hash context (delivery, false) =
      handle_existing_delivery c reason delivery document payload_hash context
  send_reserved document payload payload_hash context (delivery, true) = do
    audit_erp c reason document "erp_draft_requested" context.actor
        (concat_text ("key=" ∷ key_fingerprint c delivery.idempotency_key ∷ []))
    deliver_result c reason document payload delivery context

  -- `IntegrationDeliveryRecord(...)`
  unfoldable pub new_delivery :
      SecurityContext → DocumentRecord → String → String → M IntegrationDeliveryRecord
  new_delivery context document key payload_hash = do
    id ← new_uuid
    created_at ← now
    updated_at ← now
    pure (record {
      workspace_id = context.workspace_id;
      document_id = document.id;
      adapter_name = c.adapter.name;
      idempotency_key = key;
      payload_hash = payload_hash;
      status = IntegrationDeliveryStatus.pending;
      external_id = none;
      external_url = none;
      provider_docstatus = none;
      provider_updated_at = none;
      reconciled_at = none;
      error_code = none;
      error_detail = none;
      retryable = false;
      attempt_count = 1;
      id = id;
      created_at = created_at;
      updated_at = updated_at;
    })

  -- The last part of `send_approved_invoice`, by the delivery that holds the key.
  unfoldable pub send_under_key :
      DocumentRecord
      → IntegrationInvoicePayload × String
      → String
      → SecurityContext
      → Option IntegrationDeliveryRecord
      → M IntegrationSendResult
  unfolding handle_existing_delivery new_delivery reserve send_reserved
  send_under_key document (payload, payload_hash) key context (some existing) =
      handle_existing_delivery c reason existing document payload_hash context
  send_under_key document (payload, payload_hash) key context none = do
    delivery ← new_delivery context document key payload_hash
    reserved ← reserve delivery
    send_reserved document payload payload_hash context reserved

  unfoldable pub send_approved_invoice :
      ℕ → SecurityContext → Option String → M IntegrationSendResult
  unfolding require_admin workspace_document require_approval_evidence approved_review is_erp
      normalize_idempotency_key derived_delivery_key get_by_key hashed_payload on_blocked
      send_under_key
  send_approved_invoice document_id context idempotency_key = do
    lift (require_admin context)
    document ← workspace_document document_id context.workspace_id
    evidence ← require_approval_evidence document
    review ← approved_review c reason document context.actor evidence
    key ← lift (
        normalize_idempotency_key (
          if is_erp c
          then some (derived_delivery_key c.rendering document review.id)
          else idempotency_key))
    existing ← get_by_key context.workspace_id c.adapter.name key
    lift (
        guard
          (status_eq document.status DocumentStatus.approved
            || (status_eq document.status DocumentStatus.exported && is_some existing))
          invalid_status_transition)
    hashed ← try (hashed_payload c reason document) (on_blocked c reason document context.actor)
    send_under_key document hashed key context existing

  unfoldable pub get_delivery : ℕ → SecurityContext → M (Option IntegrationDeliveryRecord)
  unfolding require_admin workspace_document get_for_document
  get_delivery document_id context = do
    lift (require_admin context)
    workspace_document document_id context.workspace_id
    get_for_document context.workspace_id c.adapter.name document_id

  unfoldable pub reconcile_provider_delivery : ℕ → SecurityContext → M IntegrationDeliveryRecord
  unfolding require_admin workspace_document get_for_document payload_for_document
      reconcile_provider
  reconcile_provider_delivery document_id context = do
    lift (require_admin context)
    document ← workspace_document document_id context.workspace_id
    found ← get_for_document context.workspace_id c.adapter.name document_id
    delivery ← lift (require_some found not_found)
    if delivery_status_eq delivery.status IntegrationDeliveryStatus.succeeded
        then pure delivery
        else (do
          payload ← payload_for_document c document
          reconcile_provider c document payload delivery context)
