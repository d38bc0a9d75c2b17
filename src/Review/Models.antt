-- ===== src/Review/Models.antt =====
-- backend/app/review/models.py. The value of a field keeps its kind: the texts that Python makes of
-- two dates or of two decimals are equal exactly if these are.
use ai_document_ops_system.Prelude.{ℕ, String, List}
use ai_document_ops_system.Invoice.Decimal.{Decimal}
use ai_document_ops_system.Invoice.Schemas.{InvoiceData}

pub data CorrectionSource : Type 0 where
  intake_check reviewer_edit : CorrectionSource

pub data CorrectionReasonSource : Type 0 where
  user reviewer_request system_default : CorrectionReasonSource

pub data CorrectionValue : Type 0 where
  null : CorrectionValue
  text : String → CorrectionValue
  day : ℕ → CorrectionValue
  amount : Decimal → CorrectionValue

pub data InvoiceField : Type 0 where
  vendor_name invoice_number invoice_date due_date subtotal tax total currency : InvoiceField

pub data LineItemField : Type 0 where
  description quantity unit_price line_amount : LineItemField

-- `vendor_name`, or `line_items[3].amount`.
pub data CorrectionPath : Type 0 where
  field : InvoiceField → CorrectionPath
  line_item : ℕ → LineItemField → CorrectionPath

pub record FieldCorrection : Type 0 where
  pub field_path : CorrectionPath
  pub original_ai_value : CorrectionValue
  pub before_value : CorrectionValue
  pub after_value : CorrectionValue

pub record CorrectionEvent : Type 0 where
  pub workspace_id : String
  pub document_id : ℕ
  pub actor : String
  pub reason : String
  pub source : CorrectionSource
  pub reason_source : CorrectionReasonSource
  pub original_ai_data : InvoiceData
  pub before_data : InvoiceData
  pub after_data : InvoiceData
  pub changes : List FieldCorrection
  pub schema_version : String
  pub id : ℕ
  pub created_at : ℕ
