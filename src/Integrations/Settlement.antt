-- ===== src/Integrations/Settlement.antt =====
-- `reconcile_delivery` of backend/app/integrations/services.py: an administrator states what became
-- of a delivery.
pub mod Final
use ai_document_ops_system.Prelude.{
  ℕ, Bool, true, false, not, ◌&&◌, Option, none, some, String, [], ◌∷◌, str_eq, if◌then◌else◌,
}
use ai_document_ops_system.Prelude.Text.{concat_text, strip, squeeze, take_text, is_empty_text}
use ai_document_ops_system.Core.Errors.{
  Result, ok, err, guard, require_some, not_found, value_error, integration_idempotency_conflict,
}
use ai_document_ops_system.Core.Security.{SecurityContext, require_admin}
use ai_document_ops_system.Documents.Models.{DocumentRecord}
use ai_document_ops_system.Documents.Repositories.{add_audit, get_document}
use ai_document_ops_system.Documents.Status.{DocumentStatus, status_eq}
use ai_document_ops_system.Integrations.Adapter.{Connection, integration_audit, key_fingerprint}
use ai_document_ops_system.Integrations.Executor.{mark_document_exported}
use ai_document_ops_system.Integrations.Models.{
  IntegrationDeliveryStatus, IntegrationDeliveryRecord, delivery_status_eq,
}
use ai_document_ops_system.Integrations.Payload.{normalize_idempotency_key, or_empty}
use ai_document_ops_system.Integrations.Repository.{save_delivery, get_by_key}
use ai_document_ops_system.Runtime.{M, World, pure, lift, now, transaction, ◌>>=◌, ◌>>◌}

-- What the administrator states.
pub record Statement : Type 0 where
  pub succeeded : Bool
  pub external_id : Option String
  pub reason : String

unfoldable pub same_text : Option String → Option String → Bool
same_text none none = true
same_text (some a) (some b) = str_eq a b
same_text _ _ = false

-- `replace(delivery, ...)`, by what is stated.
unfoldable pub settled :
    Statement → DocumentRecord → IntegrationDeliveryRecord → M IntegrationDeliveryRecord
unfolding strip or_empty is_empty_text take_text
settled s document delivery =
    if s.succeeded
    then (do
      let external_id = strip (or_empty s.external_id)
      lift (guard (not (is_empty_text external_id)) value_error)
      at ← now
      pure (record delivery {
        status = IntegrationDeliveryStatus.succeeded;
        external_id = some (take_text 200 external_id);
        error_code = none;
        error_detail = none;
        retryable = false;
        updated_at = at;
      }))
    else (do
      lift (
          guard (not (status_eq document.status DocumentStatus.exported))
            integration_idempotency_conflict)
      at ← now
      pure (record delivery {
        status = IntegrationDeliveryStatus.failed;
        external_id = none;
        error_code = some "manually_confirmed_not_delivered";
        error_detail = some "Provider delivery was manually confirmed as not delivered.";
        retryable = true;
        updated_at = at;
      }))

abbrev settled_event : Bool → String
settled_event succeeded =
    if succeeded
    then "integration_export_reconciled_succeeded"
    else "integration_export_reconciled_failed"

module _ (c : Connection) where
  unfoldable pub record_settlement :
      Statement
      → DocumentRecord
      → IntegrationDeliveryRecord
      → SecurityContext
      → String
      → String
      → M IntegrationDeliveryRecord
  unfolding transaction settled save_delivery mark_document_exported integration_audit add_audit
      concat_text key_fingerprint
  record_settlement s document delivery context key reason = do
    reconciled ← settled s document delivery
    transaction (do
      save_delivery reconciled
      marked ←
          (if s.succeeded
            then mark_document_exported document reconciled context.actor
            else pure document)
      event ← integration_audit marked (settled_event s.succeeded) context.actor (
          concat_text (
            "adapter="
            ∷ c.adapter.name
            ∷ "; key="
            ∷ key_fingerprint c key
            ∷ "; reason="
            ∷ reason
            ∷ []))
      add_audit event)
    pure reconciled

  -- The rest, the delivery and its document at hand.
  unfoldable pub settle :
      Statement
      → DocumentRecord
      → IntegrationDeliveryRecord
      → SecurityContext
      → String
      → M IntegrationDeliveryRecord
  unfolding same_text squeeze take_text is_empty_text record_settlement
  settle s document delivery context key =
      if delivery_status_eq delivery.status IntegrationDeliveryStatus.succeeded
      then (do
        lift (
            guard (s.succeeded && same_text s.external_id delivery.external_id)
              integration_idempotency_conflict)
        pure delivery)
      else (do
        let reason = take_text 500 (squeeze s.reason)
        lift (guard (not (is_empty_text reason)) value_error)
        record_settlement s document delivery context key reason)

  unfoldable pub reconcile_delivery :
      String → SecurityContext → Statement → M IntegrationDeliveryRecord
  unfolding require_admin normalize_idempotency_key get_by_key get_document settle
  reconcile_delivery idempotency_key context s = do
    lift (require_admin context)
    key ← lift (normalize_idempotency_key (some idempotency_key))
    found ← get_by_key context.workspace_id c.adapter.name key
    delivery ← lift (require_some found not_found)
    document ← get_document delivery.document_id
    lift (guard (str_eq document.workspace_id context.workspace_id) not_found)
    settle s document delivery context key
