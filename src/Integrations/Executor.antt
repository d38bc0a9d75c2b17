-- ===== src/Integrations/Executor.antt =====
-- `IntegrationDeliveryExecutor` of backend/app/integrations/delivery_executor.py: one delivery to
-- the provider and the record of its outcome. Operation logs are not modelled.
pub mod Reconciling
use ai_document_ops_system.Prelude.{
  ℕ, ltb, Bool, true, false, not, ◌&&◌, Option, none, some, String, [], ◌∷◌, str_eq, if◌then◌else◌,
}
use ai_document_ops_system.Prelude.Text.{concat_text, is_blank, show_ℕ, show_Bool}
use ai_document_ops_system.Core.Errors.{
  Error, guard, DeliveryError, integration_delivery, integration_idempotency_conflict,
  invalid_status_transition,
}
use ai_document_ops_system.Core.Security.{SecurityContext}
use ai_document_ops_system.Documents.Models.{DocumentRecord}
use ai_document_ops_system.Documents.Repositories.{add_audit}
use ai_document_ops_system.Documents.Status.{DocumentStatus, status_eq}
use ai_document_ops_system.Documents.Workflow.{transition}
use ai_document_ops_system.Integrations.Adapter.{
  Connection, integration_event, integration_audit, key_fingerprint, safe_error_detail,
  failure_event,
}
use ai_document_ops_system.Integrations.Models.{
  IntegrationInvoicePayload, IntegrationExportResult, IntegrationDeliveryRecord, succeeded, failed,
  unknown,
}
use ai_document_ops_system.Integrations.Repository.{save_delivery}
use ai_document_ops_system.Runtime.{M, pure, raise, lift, try, now, transaction, ◌>>=◌, ◌>>◌}

-- `external_id` in an f-string: `None` is written out.
unfoldable pub show_text : Option String → String
show_text none = "None"
show_text (some t) = t

-- The changed document is returned.
unfoldable pub mark_document_exported :
    DocumentRecord → IntegrationDeliveryRecord → String → M DocumentRecord
unfolding show_text concat_text transition
mark_document_exported document delivery actor =
    if status_eq document.status DocumentStatus.exported then pure document else (do
      lift (guard (status_eq document.status DocumentStatus.approved) invalid_status_transition)
      transition document DocumentStatus.exported actor (
          some (
            concat_text (
              "adapter="
              ∷ delivery.adapter_name
              ∷ "; external_id="
              ∷ show_text delivery.external_id
              ∷ []))))

module _ (connection : Connection) where
  unfoldable pub record_attempt :
      DocumentRecord → IntegrationDeliveryRecord → SecurityContext → String → M (Unit {0})
  unfolding transaction integration_event integration_audit add_audit concat_text show_ℕ
  record_attempt document delivery context fingerprint = transaction (do
    event ←
        integration_audit document (integration_event connection "create_started" "attempted")
          context.actor
          (concat_text (
            "adapter="
            ∷ connection.adapter.name
            ∷ "; key="
            ∷ fingerprint
            ∷ "; attempt="
            ∷ show_ℕ delivery.attempt_count
            ∷ []))
    add_audit event
    pure tt)

  -- The record of a delivery that failed with `e`.
  unfoldable pub failed_delivery :
      IntegrationDeliveryRecord → DeliveryError → ℕ → IntegrationDeliveryRecord
  unfolding safe_error_detail
  failed_delivery delivery e at = record delivery {
    status = if e.outcome_unknown then unknown else failed;
    error_code = some e.code;
    error_detail = some (safe_error_detail e.message);
    retryable = e.retryable && not e.outcome_unknown;
    updated_at = at;
  }

  unfoldable pub record_failure :
      DocumentRecord
      → IntegrationDeliveryRecord
      → SecurityContext
      → String
      → DeliveryError
      → M (Unit {0})
  unfolding transaction failed_delivery save_delivery integration_audit failure_event add_audit
      concat_text show_Bool
  record_failure document delivery context fingerprint e = do
    at ← now
    transaction (do
      save_delivery (failed_delivery delivery e at)
      event ← integration_audit document (failure_event connection e) context.actor (
          concat_text (
            "adapter="
            ∷ connection.adapter.name
            ∷ "; code="
            ∷ e.code
            ∷ "; retryable="
            ∷ show_Bool e.retryable
            ∷ "; outcome_unknown="
            ∷ show_Bool e.outcome_unknown
            ∷ "; key="
            ∷ fingerprint
            ∷ []))
      add_audit event
      pure tt)

  -- The record of a delivery that `result` acknowledges.
  unfoldable pub succeeded_delivery :
      IntegrationDeliveryRecord → IntegrationExportResult → ℕ → IntegrationDeliveryRecord
  succeeded_delivery delivery result at = record delivery {
    status = succeeded;
    external_id = some result.external_id;
    external_url = result.external_url;
    provider_docstatus = result.provider_docstatus;
    provider_updated_at = result.provider_updated_at;
    error_code = none;
    error_detail = none;
    retryable = false;
    updated_at = at;
  }

  unfoldable pub record_success :
      DocumentRecord
      → IntegrationDeliveryRecord
      → SecurityContext
      → String
      → IntegrationExportResult
      → M (DocumentRecord × IntegrationDeliveryRecord)
  unfolding transaction succeeded_delivery save_delivery integration_event integration_audit
      add_audit concat_text mark_document_exported
  record_success document delivery context fingerprint result = do
    at ← now
    let done = succeeded_delivery delivery result at
    marked ← transaction (do
      save_delivery done
      event ←
          integration_audit document (integration_event connection "created" "succeeded")
            context.actor
            (concat_text (
              "adapter=" ∷ result.adapter_name ∷ "; external_id=" ∷ result.external_id ∷ "; key="
              ∷ fingerprint ∷ []))
      add_audit event
      mark_document_exported document done context.actor)
    pure (marked, done)

  unfoldable pub valid_receipt : IntegrationExportResult → Bool
  unfolding is_blank
  valid_receipt result =
      str_eq result.adapter_name connection.adapter.name && not (is_blank result.external_id)

  abbrev pub invalid_receipt : Error
  invalid_receipt = integration_delivery (record {
    message = "Integration returned an invalid delivery receipt";
    code = "invalid_delivery_receipt";
    retryable = false;
    outcome_unknown = true;
  })

  -- The body of the `try`: the call of the provider and the check of its receipt.
  unfoldable pub send_checked : IntegrationInvoicePayload → String → M IntegrationExportResult
  unfolding valid_receipt
  send_checked payload key = do
    result ← connection.adapter.send_invoice payload key
    lift (guard (valid_receipt result) invalid_receipt)
    pure result

  -- `except IntegrationDeliveryError`: the failure is recorded and raised again.
  unfoldable pub on_failure :
      {A : Type 0}
      → DocumentRecord
      → IntegrationDeliveryRecord
      → SecurityContext
      → String
      → Error
      → M A
  unfolding record_failure
  on_failure document delivery context fingerprint (integration_delivery e) = do
    record_failure document delivery context fingerprint e
    raise (integration_delivery e)
  on_failure document delivery context fingerprint e = raise e

  -- The changed document, the receipt and the stored record.
  unfoldable pub deliver :
      DocumentRecord
      → IntegrationInvoicePayload
      → IntegrationDeliveryRecord
      → SecurityContext
      → M (DocumentRecord × (IntegrationExportResult × IntegrationDeliveryRecord))
  unfolding key_fingerprint record_attempt send_checked on_failure record_success
  deliver document payload delivery context = do
    let fingerprint = key_fingerprint connection delivery.idempotency_key
    record_attempt document delivery context fingerprint
    result ←
        try (send_checked payload delivery.idempotency_key)
          (on_failure document delivery context fingerprint)
    (marked, stored) ← record_success document delivery context fingerprint result
    pure (marked, (result, stored))
