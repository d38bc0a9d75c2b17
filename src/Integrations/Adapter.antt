-- ===== src/Integrations/Adapter.antt =====
-- What the delivery of invoices takes from outside: the `AccountingIntegrationAdapter` of
-- backend/app/integrations/models.py, and the texts of UUIDs, dates, amounts and hashes. And the
-- texts that backend/app/integrations/delivery_executor.py derives from these.
use ai_document_ops_system.Prelude.{
  ℕ, Bool, not, Option, some, String, [], ◌∷◌, str_eq, if◌then◌else◌,
}
use ai_document_ops_system.Prelude.Text.{concat_text, take_text, squeeze, text_or}
use ai_document_ops_system.Core.Errors.{Result, DeliveryError}
use ai_document_ops_system.Documents.Models.{DocumentRecord, AuditEvent}
use ai_document_ops_system.Documents.Workflow.{new_event}
use ai_document_ops_system.Integrations.Models.{IntegrationInvoicePayload, IntegrationExportResult}
use ai_document_ops_system.Invoice.Decimal.{Decimal}
use ai_document_ops_system.Runtime.{M}

-- The three calls may raise; sending and finding may do anything else as well.
pub record Adapter : Type 0 where
  pub name : String
  pub event_prefix : String
  pub payload_hash : IntegrationInvoicePayload → Result String
  pub send_invoice : IntegrationInvoicePayload → String → M IntegrationExportResult
  pub find_invoice :
      IntegrationInvoicePayload → String → String → M (Option IntegrationExportResult)

-- `str(uuid)`, `date.isoformat()`, `str(decimal)` and `sha256(…).hexdigest()`.
pub record Rendering : Type 0 where
  pub uuid_text : ℕ → String
  pub date_text : ℕ → String
  pub decimal_text : Decimal → String
  pub sha256_hex : String → String

pub record Connection : Type 0 where
  pub adapter : Adapter
  pub rendering : Rendering

unfoldable pub is_erp : Connection → Bool
is_erp c = str_eq c.adapter.event_prefix "erp_draft"

unfoldable pub integration_event : Connection → String → String → String
unfolding is_erp concat_text
integration_event c erp_suffix generic_suffix =
    if is_erp c
    then concat_text ("erp_draft_" ∷ erp_suffix ∷ [])
    else concat_text ("integration_export_" ∷ generic_suffix ∷ [])

unfoldable pub integration_audit : DocumentRecord → String → String → String → M AuditEvent
unfolding new_event
integration_audit document event_type actor payload_summary =
    new_event document.id event_type actor (some document.status) (some document.status)
      (some payload_summary)

unfoldable pub key_fingerprint : Connection → String → String
unfolding take_text
key_fingerprint c value = take_text 12 (c.rendering.sha256_hex value)

unfoldable pub safe_error_detail : String → String
unfolding squeeze take_text text_or
safe_error_detail message = text_or (take_text 300 (squeeze message)) "Integration delivery failed."

unfoldable pub failure_event : Connection → DeliveryError → String
unfolding is_erp
failure_event c e =
    if not (is_erp c)
    then "integration_export_failed"
    else if e.outcome_unknown
    then "erp_draft_outcome_unknown"
    else if str_eq e.code "erpnext_unsafe_state"
    then "erp_draft_unsafe_state_detected"
    else "erp_draft_failed"
