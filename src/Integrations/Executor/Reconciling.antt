-- ===== src/Integrations/Executor/Reconciling.antt =====
-- `reconcile_provider` of backend/app/integrations/delivery_executor.py: a delivery whose outcome is
-- open, by what the provider says of it.
use ai_document_ops_system.Prelude.{ℕ, ltb, Option, none, some, String, [], ◌∷◌, str_eq}
use ai_document_ops_system.Prelude.Text.{concat_text}
use ai_document_ops_system.Core.Errors.{guard, integration_idempotency_conflict}
use ai_document_ops_system.Core.Security.{SecurityContext}
use ai_document_ops_system.Documents.Models.{DocumentRecord}
use ai_document_ops_system.Documents.Repositories.{add_audit}
use ai_document_ops_system.Integrations.Adapter.{
  Connection, integration_event, integration_audit, key_fingerprint,
}
use ai_document_ops_system.Integrations.Models.{
  IntegrationInvoicePayload, IntegrationExportResult, IntegrationDeliveryRecord, failed,
}
use ai_document_ops_system.Integrations.Repository.{save_delivery}
use ai_document_ops_system.Runtime.{M, pure, lift, now, transaction, ◌>>=◌, ◌>>◌}
use ai_document_ops_system.Integrations.Executor.{mark_document_exported, succeeded_delivery}

module _ (connection : Connection) where
  abbrev not_found_delivery : IntegrationDeliveryRecord → ℕ → IntegrationDeliveryRecord
  not_found_delivery delivery at = record delivery {
    status = failed;
    error_code = some "erpnext_draft_not_found";
    error_detail = some "ERPNext did not contain a draft for this delivery.";
    retryable = ltb delivery.attempt_count 3;
    updated_at = at;
  }

  unfoldable pub record_not_found :
      DocumentRecord → IntegrationDeliveryRecord → String → M IntegrationDeliveryRecord
  unfolding transaction save_delivery integration_event integration_audit add_audit concat_text
      key_fingerprint
  record_not_found document delivery actor = do
    at ← now
    let done = not_found_delivery delivery at
    transaction (do
      save_delivery done
      event ← integration_audit document (integration_event connection "failed" "failed") actor (
          concat_text (
            "code=erpnext_draft_not_found; key="
            ∷ key_fingerprint connection delivery.idempotency_key
            ∷ []))
      add_audit event)
    pure done

  unfoldable pub record_reconciled :
      DocumentRecord
      → IntegrationDeliveryRecord
      → IntegrationExportResult
      → String
      → M IntegrationDeliveryRecord
  unfolding transaction succeeded_delivery save_delivery integration_event integration_audit
      add_audit concat_text key_fingerprint mark_document_exported
  record_reconciled document delivery result actor = do
    at ← now
    let done =
        let r : IntegrationDeliveryRecord =
          record (succeeded_delivery connection delivery result at) { reconciled_at = some at } in
        r
    transaction (do
      save_delivery done
      event ←
          integration_audit document
            (integration_event connection "reconciled" "reconciled_succeeded") actor
            (concat_text (
              "external_id="
              ∷ result.external_id
              ∷ "; key="
              ∷ key_fingerprint connection delivery.idempotency_key
              ∷ []))
      add_audit event
      mark_document_exported document done actor)
    pure done

  -- What the provider says of a delivery whose outcome is open.
  unfoldable pub record_finding :
      DocumentRecord
      → IntegrationDeliveryRecord
      → String
      → Option IntegrationExportResult
      → M IntegrationDeliveryRecord
  unfolding record_not_found record_reconciled
  record_finding document delivery actor none = record_not_found document delivery actor
  record_finding document delivery actor (some result) =
      record_reconciled document delivery result actor

  unfoldable pub reconcile_provider :
      DocumentRecord
      → IntegrationInvoicePayload
      → IntegrationDeliveryRecord
      → SecurityContext
      → M IntegrationDeliveryRecord
  unfolding record_finding
  reconcile_provider document payload delivery context = do
    payload_hash ← lift (connection.adapter.payload_hash payload)
    lift (guard (str_eq payload_hash delivery.payload_hash) integration_idempotency_conflict)
    found ← connection.adapter.find_invoice payload delivery.idempotency_key delivery.payload_hash
    record_finding document delivery context.actor found
