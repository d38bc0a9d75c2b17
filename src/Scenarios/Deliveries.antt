-- ===== src/Scenarios/Deliveries.antt =====
-- Deliveries of approved invoices.
use ai_document_ops_system.Prelude.{
  Bool, ◌≡◌, refl, none, some, String, [], ◌∷◌, true, false, if◌then◌else◌,
}
use ai_document_ops_system.Prelude.Dict.{lookup, insert}
use ai_document_ops_system.Core.Errors.{Error, DeliveryError, integration_delivery, ok, err, is_ok}
use ai_document_ops_system.Documents.Models.{DocumentRecord, ReviewTask}
use ai_document_ops_system.Documents.Status.{DocumentStatus}
use ai_document_ops_system.Integrations.Adapter.{Connection}
use ai_document_ops_system.Integrations.Claims.{claim_retry-once, reserve-refines}
use ai_document_ops_system.Integrations.Executor.{deliver, failed_delivery, succeeded_delivery}
use ai_document_ops_system.Integrations.Models.{
  IntegrationDeliveryRecord, IntegrationDeliveryStatus, IntegrationInvoicePayload,
  IntegrationExportResult,
}
use ai_document_ops_system.Integrations.OpenOutcome.{unknown_not_resent}
use ai_document_ops_system.Integrations.Recording.{
  Reports, acknowledged, failure_recorded, success_recorded,
}
use ai_document_ops_system.Integrations.Redelivery.{IsDelivered, delivered_once, receipt}
use ai_document_ops_system.Integrations.Replay.{unoffered_refused}
use ai_document_ops_system.Integrations.Repository.{find_delivery, claim_retry, reserve}
use ai_document_ops_system.Integrations.Service.Sending.{send_approved_invoice}
use ai_document_ops_system.Integrations.Settlement.{Statement, reconcile_delivery, same_text}
use ai_document_ops_system.Integrations.Settlement.Final.{success_final}
use ai_document_ops_system.Runtime.{World, pure, raise}
use ai_document_ops_system.Runtime.Yields.{OfOk}
use ai_document_ops_system.Scenarios.Data.{world, tables, document, stored, admin_context}

abbrev receipt_of : IntegrationExportResult
receipt_of = record {
  adapter_name = "books";
  external_id = "X1";
  status = "sent";
  retryable = false;
  external_url = none;
  provider_docstatus = none;
  provider_updated_at = none;
}

abbrev lost : DeliveryError
lost = record { message = "timeout"; code = "timeout"; retryable = true; outcome_unknown = true }

-- A provider that answers, or one whose answer is lost.
abbrev connection : Bool → Connection
connection answers = record {
  adapter = record {
    name = "books";
    event_prefix = "integration_export";
    payload_hash = λ payload. ok "h";
    send_invoice =
        λ payload key. if answers then pure receipt_of else raise (integration_delivery lost);
    find_invoice = λ payload key hash. pure none;
  };
  rendering = record {
    uuid_text = λ id. "u";
    date_text = λ date. "d";
    decimal_text = λ amount. "1";
    sha256_hex = λ text. "0123456789abcdef";
  };
}

abbrev books : Connection
books = connection true

abbrev silent_books : Connection
silent_books = connection false

abbrev reason : Error → String
reason e = "refused"

abbrev delivery : IntegrationDeliveryRecord
delivery = record {
  workspace_id = "ws";
  document_id = 2;
  adapter_name = "books";
  idempotency_key = "key-0001";
  payload_hash = "h";
  status = IntegrationDeliveryStatus.pending;
  external_id = none;
  external_url = none;
  provider_docstatus = none;
  provider_updated_at = none;
  reconciled_at = none;
  error_code = none;
  error_detail = none;
  retryable = false;
  attempt_count = 1;
  id = 70;
  created_at = 6;
  updated_at = 6;
}

abbrev done_delivery : IntegrationDeliveryRecord
done_delivery = record delivery {
  status = IntegrationDeliveryStatus.succeeded;
  external_id = some "X1";
}

abbrev failed_before : IntegrationDeliveryRecord
failed_before = record delivery { status = IntegrationDeliveryStatus.failed; retryable = true }

abbrev review : ReviewTask
review = record {
  document_id = 2;
  status = "approved";
  reviewer_notes = none;
  assigned_to = none;
  reviewed_by = some "Invoice Reviewer";
  reviewed_at = some 4;
  id = 80;
  created_at = 3;
  updated_at = 4;
}

abbrev holding : IntegrationDeliveryRecord → World
holding d = record world { tables = record tables { deliveries = d ∷ [] } }

abbrev delivered_world : World
delivered_world = record world {
  tables = record tables {
    documents = (2, document 2 DocumentStatus.exported) ∷ [];
    reviews = (2, review) ∷ [];
    deliveries = done_delivery ∷ [];
  };
}

abbrev payload : IntegrationInvoicePayload
payload = record {
  document_id = "u";
  workspace_id = "ws";
  vendor_name = none;
  invoice_number = none;
  invoice_date = none;
  due_date = none;
  subtotal = none;
  tax = none;
  total = none;
  currency = none;
  line_items = [];
}

abbrev approved_document : DocumentRecord
approved_document = document 2 DocumentStatus.approved

-- The world after the attempt is recorded.
abbrev after_attempt : Connection → World
after_attempt c =
    ai_document_ops_system.Integrations.Recording.attempted c approved_document delivery
      admin_context world

unoffered_refused_example :
    (is_ok
        (send_approved_invoice books reason 2 admin_context (some "key-0001") (holding delivery)).0
      ≡ false)
    × ((send_approved_invoice books reason 2 admin_context (some "key-0001") (holding delivery)).1
        ≡ holding delivery)
unfolding ai_document_ops_system.Integrations.Adapter.is_erp
    ai_document_ops_system.Integrations.Payload.normalize_idempotency_key lookup find_delivery
    ai_document_ops_system.Integrations.Projection.erp_delivery_projection
unoffered_refused_example =
    unoffered_refused books reason 2 admin_context (some "key-0001") "key-0001" approved_document
      delivery (holding delivery) refl refl refl refl refl refl

delivered : IsDelivered books 2 admin_context (some "key-0001") delivered_world.tables
unfolding lookup ai_document_ops_system.Integrations.Payload.evidence_in
    ai_document_ops_system.Invoice.Validation.has_errors
    ai_document_ops_system.Integrations.Payload.normalize_idempotency_key
    ai_document_ops_system.Integrations.Adapter.is_erp find_delivery
delivered = record {
  document = document 2 DocumentStatus.exported;
  found = refl;
  same_workspace = refl;
  is_exported = refl;
  review = review;
  evident = refl;
  stored = stored 2;
  extracted = refl;
  no_errors = refl;
  key = "key-0001";
  key_lem = refl;
  delivery = done_delivery;
  held = refl;
  done = refl;
  same_document = refl;
  payload_hash = "h";
  hashed = refl;
  same_payload = refl;
  external_id = "X1";
  acknowledged = refl;
  is_filled = refl;
}

delivered_once_example :
    send_approved_invoice books reason 2 admin_context (some "key-0001") delivered_world ≡ (
      ok (receipt books 2 admin_context (some "key-0001") delivered_world.tables delivered),
      delivered_world,
    )
delivered_once_example =
    delivered_once books reason 2 admin_context (some "key-0001") delivered_world delivered refl

failure_recorded_example :
    let left = deliver silent_books approved_document payload delivery admin_context world in
    let after = after_attempt silent_books in
    (left.0 ≡ err (integration_delivery lost))
    × ((r : IntegrationDeliveryRecord) × (find_delivery "ws" "books" "key-0001"
            left.1.tables.deliveries
          ≡ some r)
        × Reports delivery lost (after.clock after.ticks) r)
    × (left.1.tables.documents ≡ after.tables.documents)
failure_recorded_example =
    failure_recorded silent_books approved_document payload delivery admin_context lost world
      (after_attempt silent_books) refl

success_recorded_example :
    let left = deliver books approved_document payload delivery admin_context world in
    let after = after_attempt books in
    let done = acknowledged delivery receipt_of (after.clock after.ticks) in
    let marked =
      let m : DocumentRecord = record approved_document {
        status = DocumentStatus.exported;
        updated_at = 13;
      } in
      m in
    (left.0 ≡ ok (marked, (receipt_of, done)))
    × (find_delivery "ws" "books" "key-0001" left.1.tables.deliveries ≡ some done)
    × (left.1.tables.documents ≡ insert 2 marked after.tables.documents)
unfolding ai_document_ops_system.Prelude.Text.is_blank
    ai_document_ops_system.Integrations.Executor.record_attempt
success_recorded_example =
    success_recorded books approved_document payload delivery admin_context receipt_of world
      (after_attempt books) refl refl refl refl

unknown_not_resent_example :
    let left = (deliver silent_books approved_document payload delivery admin_context world).1 in
    let again = send_approved_invoice silent_books reason 2 admin_context (some "key-0001") left in
    (is_ok again.0 ≡ false) × (again.1 ≡ left)
unfolding ai_document_ops_system.Integrations.Adapter.is_erp
    ai_document_ops_system.Integrations.Payload.normalize_idempotency_key lookup
    ai_document_ops_system.Integrations.Executor.record_attempt
unknown_not_resent_example =
    unknown_not_resent silent_books reason approved_document approved_document payload delivery
      admin_context (some "key-0001") lost world (after_attempt silent_books) refl refl refl refl
      refl refl refl

claim_retry-once_example : (claim_retry 70 (claim_retry 70 (holding failed_before)).1).0 ≡ ok none
unfolding ai_document_ops_system.Integrations.Claims.is_keyed claim_retry
claim_retry-once_example =
    claim_retry-once 70
      (record failed_before {
        status = IntegrationDeliveryStatus.pending;
        retryable = false;
        attempt_count = 2;
        updated_at = 10;
      })
      (holding failed_before) refl refl

reserve-refines_example :
    ((reserve delivery (holding done_delivery)).0 ≡ ok (done_delivery, false))
    × (find_delivery "ws" "books" "key-0001"
          (reserve delivery (holding done_delivery)).1.tables.deliveries
        ≡ some done_delivery)
unfolding find_delivery
reserve-refines_example = reserve-refines "ws" "books" "key-0001" delivery (holding done_delivery)

abbrev denied : Statement
denied = record { succeeded = false; external_id = none; reason = "not there" }

success_final_example :
    ((reconcile_delivery books "key-0001" admin_context denied (holding done_delivery)).1
      ≡ holding done_delivery)
    × OfOk
        (λ result.
          (result ≡ done_delivery)
          × (denied.succeeded ≡ true)
          × (same_text denied.external_id done_delivery.external_id ≡ true))
        (reconcile_delivery books "key-0001" admin_context denied (holding done_delivery)).0
unfolding ai_document_ops_system.Integrations.Payload.normalize_idempotency_key find_delivery
success_final_example =
    success_final books "key-0001" admin_context denied "key-0001" done_delivery
      (holding done_delivery) refl refl refl
