-- ===== src/Integrations/Models.antt =====
-- backend/app/integrations/models.py: the payload, the receipt and the record of a delivery.
use ai_document_ops_system.Prelude.{ℕ, Bool, ◌==◌, Option, String, List}
use ai_document_ops_system.Prelude.Int.{ℤ}

pub record IntegrationLineItem : Type 0 where
  pub description : Option String
  pub quantity : Option String
  pub unit_price : Option String
  pub amount : Option String

pub record IntegrationInvoicePayload : Type 0 where
  pub document_id : String
  pub workspace_id : String
  pub vendor_name : Option String
  pub invoice_number : Option String
  pub invoice_date : Option String
  pub due_date : Option String
  pub subtotal : Option String
  pub tax : Option String
  pub total : Option String
  pub currency : Option String
  pub line_items : List IntegrationLineItem

pub record IntegrationExportResult : Type 0 where
  pub adapter_name : String
  pub external_id : String
  pub status : String
  pub retryable : Bool
  pub external_url : Option String
  pub provider_docstatus : Option ℤ
  pub provider_updated_at : Option String

pub data IntegrationDeliveryStatus : Type 0 where
  pending succeeded failed unknown : IntegrationDeliveryStatus

abbrev index : IntegrationDeliveryStatus → ℕ
index pending = 0
index succeeded = 1
index failed = 2
index unknown = 3

abbrev pub delivery_status_eq : IntegrationDeliveryStatus → IntegrationDeliveryStatus → Bool
delivery_status_eq a b = index a == index b

pub record IntegrationDeliveryRecord : Type 0 where
  pub workspace_id : String
  pub document_id : ℕ
  pub adapter_name : String
  pub idempotency_key : String
  pub payload_hash : String
  pub status : IntegrationDeliveryStatus
  pub external_id : Option String
  pub external_url : Option String
  pub provider_docstatus : Option ℤ
  pub provider_updated_at : Option String
  pub reconciled_at : Option ℕ
  pub error_code : Option String
  pub error_detail : Option String
  pub retryable : Bool
  pub attempt_count : ℕ
  pub id : ℕ
  pub created_at : ℕ
  pub updated_at : ℕ
