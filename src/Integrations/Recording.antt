-- ===== src/Integrations/Recording.antt =====
-- What a delivery leaves in the store.
use ai_document_ops_system.Prelude.{
  ℕ, suc, true, false, none, some, ◌≡◌, ◌⊎◌, inl, inr, refl, arith, eq_iff, Bool-cases,
}
use ai_document_ops_system.Prelude.Text.{is_blank}
use ai_document_ops_system.Prelude.Dict.{insert}
use ai_document_ops_system.Core.Errors.{DeliveryError, integration_delivery, err, ok}
use ai_document_ops_system.Core.Security.{SecurityContext}
use ai_document_ops_system.Documents.Models.{DocumentRecord}
use ai_document_ops_system.Documents.Status.{approved, exported}
use ai_document_ops_system.Integrations.Adapter.{Connection, key_fingerprint}
use ai_document_ops_system.Integrations.Claims.{find-put}
use ai_document_ops_system.Integrations.Executor.{
  deliver, record_attempt, record_success, failed_delivery, succeeded_delivery, send_checked,
  on_failure, valid_receipt,
}
use ai_document_ops_system.Integrations.Models.{
  IntegrationInvoicePayload, IntegrationExportResult, IntegrationDeliveryRecord, succeeded, failed,
  unknown,
}
use ai_document_ops_system.Integrations.Repository.{find_delivery}
use ai_document_ops_system.Runtime.{World}

-- The world in which the provider is called, the attempt recorded.
abbrev pub attempted :
    Connection → DocumentRecord → IntegrationDeliveryRecord → SecurityContext → World → World
attempted c document d context w =
    (record_attempt c document d context (key_fingerprint c d.idempotency_key) w).1

-- What the record `r` of the delivery `d` says after the provider's call raised `e`: its code, and
-- either an unknown outcome, not to be retried, or a failure that may be retried if `e` says so.
pub record Reports (d : IntegrationDeliveryRecord) (e : DeliveryError) (at : ℕ)
    (r : IntegrationDeliveryRecord) : Type 0 where
  pub outcome :
      ((e.outcome_unknown ≡ true) × (r.status ≡ unknown) × (r.retryable ≡ false))
      ⊎ ((e.outcome_unknown ≡ false) × (r.status ≡ failed) × (r.retryable ≡ e.retryable))
  pub code : r.error_code ≡ some e.code
  pub of_delivery :
      (r.id ≡ d.id) × (r.document_id ≡ d.document_id) × (r.payload_hash ≡ d.payload_hash)
  pub attempts : r.attempt_count ≡ d.attempt_count
  pub stamped : r.updated_at ≡ at

failed_delivery-Reports :
    (c : Connection) (d : IntegrationDeliveryRecord) (e : DeliveryError) (at : ℕ)
    → Reports d e at (failed_delivery c d e at)
unfolding failed_delivery
failed_delivery-Reports c d e at = record {
  outcome = elim (Bool-cases e.outcome_unknown) [
    | inl lost ↦ inl (lost, rw lost refl, ground (arith, lost))
    | inr known ↦ inr (known, rw known refl, ground (arith, known))
  ];
  code = refl;
  of_delivery = (refl, refl, refl);
  attempts = refl;
  stamped = refl;
}

-- The record that the recording of `e` puts under the delivery's key.
pub failure_stored :
    (c : Connection) (document : DocumentRecord) (payload : IntegrationInvoicePayload)
    (d : IntegrationDeliveryRecord) (context : SecurityContext) (e : DeliveryError)
    (w after : World)
    → c.adapter.send_invoice payload d.idempotency_key (attempted c document d context w)
      ≡ (err (integration_delivery e), after)
    → ((deliver c document payload d context w).0 ≡ err (integration_delivery e))
      × (find_delivery d.workspace_id d.adapter_name d.idempotency_key
            (deliver c document payload d context w).1.tables.deliveries
          ≡ some (failed_delivery c d e (after.clock after.ticks)))
      × ((deliver c document payload d context w).1.tables.documents ≡ after.tables.documents)
unfolding deliver send_checked on_failure
failure_stored c document payload d context e w after sent =
    rw sent (
      refl,
      find-put (failed_delivery c d e (after.clock after.ticks)) after.tables.deliveries,
      refl,
    )

-- Where the provider's call raises an `IntegrationDeliveryError`, the delivery raises it too, and
-- the record under its key then has the error's code and the next reading of the clock, and says
-- either that the outcome is unknown and may not be retried, where the error leaves it open, or that
-- the delivery failed and may be retried exactly if the error says so. It is still the record of the
-- same delivery, with as many attempts. No document is changed by the recording.
pub failure_recorded :
    (c : Connection) (document : DocumentRecord) (payload : IntegrationInvoicePayload)
    (d : IntegrationDeliveryRecord) (context : SecurityContext) (e : DeliveryError)
    (w after : World)
    → c.adapter.send_invoice payload d.idempotency_key (attempted c document d context w)
      ≡ (err (integration_delivery e), after)
    → ((deliver c document payload d context w).0 ≡ err (integration_delivery e))
      × ((r : IntegrationDeliveryRecord) × (find_delivery d.workspace_id d.adapter_name
              d.idempotency_key
              (deliver c document payload d context w).1.tables.deliveries
            ≡ some r)
          × Reports d e (after.clock after.ticks) r)
      × ((deliver c document payload d context w).1.tables.documents ≡ after.tables.documents)
failure_recorded c document payload d context e w after sent =
    let (raised, stored, untouched) = failure_stored c document payload d context e w after sent in
    (raised, (_, stored, failed_delivery-Reports c d e (after.clock after.ticks)), untouched)

receipt_valid :
    (c : Connection) (result : IntegrationExportResult)
    → result.adapter_name ≡ c.adapter.name
    → is_blank result.external_id ≡ false
    → valid_receipt c result ≡ true
unfolding valid_receipt
receipt_valid c result named given =
    ground (arith, given, (eq_iff result.adapter_name c.adapter.name).1 named)

-- The record of a delivery that `result` acknowledges: succeeded, with what the receipt says, no
-- error and nothing to retry.
abbrev pub acknowledged :
    IntegrationDeliveryRecord → IntegrationExportResult → ℕ → IntegrationDeliveryRecord
acknowledged d result at = record {
  workspace_id = d.workspace_id;
  document_id = d.document_id;
  adapter_name = d.adapter_name;
  idempotency_key = d.idempotency_key;
  payload_hash = d.payload_hash;
  status = succeeded;
  external_id = some result.external_id;
  external_url = result.external_url;
  provider_docstatus = result.provider_docstatus;
  provider_updated_at = result.provider_updated_at;
  reconciled_at = d.reconciled_at;
  error_code = none;
  error_detail = none;
  retryable = false;
  attempt_count = d.attempt_count;
  id = d.id;
  created_at = d.created_at;
  updated_at = at;
}

-- Where the provider's call returns a receipt that names the adapter and an external id that is not
-- blank, the delivery of an approved document returns that receipt; the record under its key then
-- has the status `succeeded`, the receipt's external id, link and provider's state, no error, nothing
-- to retry and otherwise what it had; and the document is stored as exported; both as of the next
-- readings of the clock.
pub success_recorded :
    (c : Connection) (document : DocumentRecord) (payload : IntegrationInvoicePayload)
    (d : IntegrationDeliveryRecord) (context : SecurityContext) (result : IntegrationExportResult)
    (w after : World)
    → c.adapter.send_invoice payload d.idempotency_key (attempted c document d context w)
      ≡ (ok result, after)
    → result.adapter_name ≡ c.adapter.name
    → is_blank result.external_id ≡ false
    → document.status ≡ approved
    → let done = acknowledged d result (after.clock after.ticks) in
      let marked =
        let m : DocumentRecord = record document {
          status = exported;
          updated_at = after.clock (suc (suc after.ticks));
        } in
        m in
      ((deliver c document payload d context w).0 ≡ ok (marked, (result, done)))
      × (find_delivery d.workspace_id d.adapter_name d.idempotency_key
            (deliver c document payload d context w).1.tables.deliveries
          ≡ some done)
      × ((deliver c document payload d context w).1.tables.documents
          ≡ insert document.id marked after.tables.documents)
unfolding deliver send_checked record_success succeeded_delivery
success_recorded c document payload d context result w after sent named given waiting =
    rw (sent, receipt_valid c result named given, waiting)
      (
        refl,
        find-put (acknowledged d result (after.clock after.ticks)) after.tables.deliveries,
        refl,
      )
