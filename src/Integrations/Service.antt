-- ===== src/Integrations/Service.antt =====
-- `InvoiceIntegrationService` of backend/app/integrations/services.py: sending an approved invoice
-- and settling a delivery whose outcome is open.
pub mod Sending
use ai_document_ops_system.Prelude.{
  ℕ, ltb, Bool, true, false, not, ◌&&◌, ◌||◌, Option, none, some, is_some, String, [], ◌∷◌, ◌==◌,
  str_eq, if◌then◌else◌,
}
use ai_document_ops_system.Prelude.Text.{concat_text, show_ℕ}
use ai_document_ops_system.Core.Errors.{
  Error, guard, require_some, not_found, invalid_status_transition,
  integration_idempotency_conflict, integration_outcome_unknown, is_value_error,
}
use ai_document_ops_system.Core.Security.{SecurityContext, require_admin}
use ai_document_ops_system.Documents.Models.{DocumentRecord, ReviewTask}
use ai_document_ops_system.Documents.Repositories.{add_audit}
use ai_document_ops_system.Documents.Status.{DocumentStatus, status_eq}
use ai_document_ops_system.Documents.Workflow.{workspace_document}
use ai_document_ops_system.Integrations.Adapter.{
  Connection, is_erp, integration_audit, key_fingerprint, safe_error_detail,
}
use ai_document_ops_system.Integrations.Executor.{deliver, mark_document_exported}
use ai_document_ops_system.Integrations.Executor.Reconciling.{reconcile_provider}
use ai_document_ops_system.Integrations.Models.{
  IntegrationInvoicePayload, IntegrationExportResult, IntegrationDeliveryStatus,
  IntegrationDeliveryRecord, delivery_status_eq,
}
use ai_document_ops_system.Integrations.Payload.{
  Evidence, given, missing, payload_for_document, normalize_idempotency_key, derived_delivery_key,
  require_approval_evidence, is_missing,
}
use ai_document_ops_system.Integrations.Repository.{
  get_by_key, reserve, get_for_document, claim_retry,
}
use ai_document_ops_system.Runtime.{M, pure, raise, lift, try, now, new_uuid, ◌>>=◌, ◌>>◌}

pub record IntegrationSendResult : Type 0 where
  pub document : DocumentRecord
  pub integration_result : IntegrationExportResult
  pub delivery : IntegrationDeliveryRecord
  pub replayed : Bool

-- `value or None`
abbrev filled : Option String → Option String
filled value = if is_missing value then none else value

-- `c` is the connection to the provider, `reason` gives the message of an exception that the
-- adapter raised.
module _ (c : Connection) (reason : Error → String) where
  abbrev audit_erp : DocumentRecord → String → String → String → M (Unit {0})
  audit_erp document event_type actor summary = if not (is_erp c) then pure tt else (do
    event ← integration_audit document event_type actor summary
    add_audit event
    pure tt)

  unfoldable pub audit_blocked : DocumentRecord → String → String → M (Unit {0})
  unfolding is_erp integration_audit add_audit safe_error_detail
  audit_blocked document actor message =
      audit_erp document "erp_draft_blocked" actor (safe_error_detail message)

  -- The first `try` of `send_approved_invoice`.
  unfoldable pub approved_review : DocumentRecord → String → Evidence → M ReviewTask
  unfolding audit_blocked
  approved_review document actor (given review) = pure review
  approved_review document actor (missing message) = do
    audit_blocked document actor message
    raise invalid_status_transition

  unfoldable pub hashed_payload : DocumentRecord → M (IntegrationInvoicePayload × String)
  unfolding payload_for_document
  hashed_payload document = do
    payload ← payload_for_document c document
    payload_hash ← lift (c.adapter.payload_hash payload)
    pure (payload, payload_hash)

  abbrev blocked_message : Error → String
  blocked_message invalid_status_transition = "Resolve invoice issues before creating an ERP draft"
  blocked_message e = reason e

  -- `except (InvalidStatusTransition, ValueError)`
  unfoldable pub on_blocked : {A : Type 0} → DocumentRecord → String → Error → M A
  unfolding audit_blocked is_value_error
  on_blocked document actor e =
      if is_value_error e
      then (do audit_blocked document actor (blocked_message e); raise e)
      else raise e

  unfoldable pub deliver_result :
      DocumentRecord
      → IntegrationInvoicePayload
      → IntegrationDeliveryRecord
      → SecurityContext
      → M IntegrationSendResult
  unfolding deliver
  deliver_result document payload delivery context = do
    (marked, (result, stored)) ← deliver c document payload delivery context
    pure (record {
      document = marked;
      integration_result = result;
      delivery = stored;
      replayed = false;
    })

  -- A delivery that succeeded before: its receipt is given again.
  unfoldable pub replay_success :
      IntegrationDeliveryRecord → DocumentRecord → SecurityContext → M IntegrationSendResult
  unfolding is_erp is_missing mark_document_exported
  replay_success delivery document context = do
    external_id ← lift (require_some (filled delivery.external_id) integration_outcome_unknown)
    marked ← mark_document_exported document delivery context.actor
    pure (record {
      document = marked;
      integration_result = record {
        adapter_name = delivery.adapter_name;
        external_id = external_id;
        status = if is_erp c then "draft_created" else "sent";
        retryable = false;
        external_url = delivery.external_url;
        provider_docstatus = delivery.provider_docstatus;
        provider_updated_at = delivery.provider_updated_at;
      };
      delivery = delivery;
      replayed = true;
    })

  -- A delivery that failed before: it is claimed and made again.
  unfoldable pub retry_failed :
      IntegrationDeliveryRecord → DocumentRecord → SecurityContext → M IntegrationSendResult
  unfolding claim_retry is_erp integration_audit add_audit concat_text show_ℕ key_fingerprint
      payload_for_document deliver_result
  retry_failed delivery document context = do
    lift (guard delivery.retryable integration_idempotency_conflict)
    lift (guard (status_eq document.status DocumentStatus.approved) invalid_status_transition)
    lift (guard (ltb delivery.attempt_count 3) integration_idempotency_conflict)
    found ← claim_retry delivery.id
    claimed ← lift (require_some found integration_outcome_unknown)
    audit_erp document "erp_draft_retry_claimed" context.actor (
        concat_text (
          "attempt="
          ∷ show_ℕ claimed.attempt_count
          ∷ "; key="
          ∷ key_fingerprint c claimed.idempotency_key
          ∷ []))
    payload ← payload_for_document c document
    deliver_result document payload claimed context

  unfoldable pub continue_delivery :
      IntegrationDeliveryStatus
      → IntegrationDeliveryRecord
      → DocumentRecord
      → SecurityContext
      → M IntegrationSendResult
  unfolding replay_success retry_failed
  continue_delivery IntegrationDeliveryStatus.succeeded delivery document context =
      replay_success delivery document context
  continue_delivery IntegrationDeliveryStatus.pending delivery document context =
      raise integration_outcome_unknown
  continue_delivery IntegrationDeliveryStatus.unknown delivery document context =
      raise integration_outcome_unknown
  continue_delivery IntegrationDeliveryStatus.failed delivery document context =
      retry_failed delivery document context

  -- `_handle_existing_delivery`
  unfoldable pub handle_existing_delivery :
      IntegrationDeliveryRecord
      → DocumentRecord
      → String
      → SecurityContext
      → M IntegrationSendResult
  unfolding continue_delivery
  handle_existing_delivery delivery document payload_hash context = do
    lift (
        guard (delivery.document_id == document.id && str_eq delivery.payload_hash payload_hash)
          integration_idempotency_conflict)
    continue_delivery delivery.status delivery document context
