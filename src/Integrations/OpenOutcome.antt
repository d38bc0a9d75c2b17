-- ===== src/Integrations/OpenOutcome.antt =====
-- Sending again after an attempt whose outcome is not known.
use ai_document_ops_system.Prelude.{true, false, Option, some, String, List, ◌≡◌, refl, sym}
use ai_document_ops_system.Prelude.Dict.{lookup}
use ai_document_ops_system.Core.Errors.{Error, DeliveryError, integration_delivery, ok, err, is_ok}
use ai_document_ops_system.Core.Security.{SecurityContext}
use ai_document_ops_system.Documents.Models.{DocumentRecord}
use ai_document_ops_system.Integrations.Adapter.{Connection, is_erp}
use ai_document_ops_system.Integrations.Executor.{deliver, failed_delivery}
use ai_document_ops_system.Integrations.Models.{
  IntegrationInvoicePayload, IntegrationDeliveryRecord,
}
use ai_document_ops_system.Integrations.Payload.{normalize_idempotency_key}
use ai_document_ops_system.Integrations.Projection.{erp_delivery_projection}
use ai_document_ops_system.Integrations.Recording.{attempted, failure_stored}
use ai_document_ops_system.Integrations.Replay.{unoffered_refused}
use ai_document_ops_system.Integrations.Service.Sending.{send_approved_invoice}
use ai_document_ops_system.Integrations.Repository.{find_delivery}
use ai_document_ops_system.Runtime.{World}

held_as :
    (a a2 b b2 k : String) (l : List IntegrationDeliveryRecord)
    (o : Option IntegrationDeliveryRecord)
    → a ≡ a2
    → b ≡ b2
    → find_delivery a b k l ≡ o
    → find_delivery a2 b2 k l ≡ o
held_as a a2 b b2 k l o h j found = rw (sym h, sym j) found

-- A delivery of a request of the caller's workspace whose outcome the provider left open, through
-- an adapter other than ERPNext's: sending the document again under the same key is refused and
-- changes nothing, so an invoice that may have arrived is not sent twice.
pub unknown_not_resent :
    (c : Connection) (reason : Error → String) (document current : DocumentRecord)
    (payload : IntegrationInvoicePayload) (d : IntegrationDeliveryRecord)
    (context : SecurityContext) (given_key : Option String) (e : DeliveryError) (w after : World)
    → c.adapter.send_invoice payload d.idempotency_key (attempted c document d context w)
      ≡ (err (integration_delivery e), after)
    → e.outcome_unknown ≡ true
    → is_erp c ≡ false
    → d.workspace_id ≡ context.workspace_id
    → d.adapter_name ≡ c.adapter.name
    → normalize_idempotency_key given_key ≡ ok d.idempotency_key
    → lookup document.id after.tables.documents ≡ some current
    → let left = (deliver c document payload d context w).1 in
      (is_ok (send_approved_invoice c reason document.id context given_key left).0 ≡ false)
      × ((send_approved_invoice c reason document.id context given_key left).1 ≡ left)
unfolding failed_delivery erp_delivery_projection
unknown_not_resent c reason document current payload d context given_key e w after sent lost quiet
      workspace name normal found =
    let (raised, stored, same) = failure_stored c document payload d context e w after sent in
    unoffered_refused c reason document.id context given_key d.idempotency_key current
      (failed_delivery c d e (after.clock after.ticks)) (deliver c document payload d context w).1
      quiet normal (rw same found) (held_as _ _ _ _ d.idempotency_key _ _ workspace name stored)
      (rw lost refl) (rw lost refl)
