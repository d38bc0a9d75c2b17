-- ===== src/Integrations/Projection.antt =====
-- backend/app/integrations/projections.py: what the interface shows of a delivery.
use ai_document_ops_system.Prelude.{
  ℕ, ltb, Bool, false, ◌&&◌, ◌||◌, Option, none, some, String, if◌then◌else◌,
}
use ai_document_ops_system.Prelude.Int.{ℤ}
use ai_document_ops_system.Documents.Status.{DocumentStatus, status_eq, approved}
use ai_document_ops_system.Integrations.Models.{
  IntegrationDeliveryStatus, pending, succeeded, failed, unknown, IntegrationDeliveryRecord,
  delivery_status_eq,
}

-- A time is shown as a number, the interface writes it in ISO format.
pub record ErpDelivery : Type 0 where
  pub status : String
  pub label : String
  pub can_create : Bool
  pub can_reconcile : Bool
  pub can_retry : Bool
  pub attempt_count : ℕ
  pub external_id : Option String
  pub external_url : Option String
  pub provider_docstatus : Option ℤ
  pub error_code : Option String
  pub error_message : Option String
  pub updated_at : Option ℕ

unfoldable pub status_and_label : IntegrationDeliveryStatus → Bool → String × String
status_and_label succeeded retryable = ("succeeded", "ERP draft created")
status_and_label pending retryable = ("pending", "Creating ERP draft")
status_and_label unknown retryable = ("unknown", "Checking whether ERP saved the draft")
status_and_label failed retryable =
    if retryable
    then ("failed_retryable", "ERP draft was not created")
    else ("failed_permanent", "ERP draft needs attention")

unfoldable pub erp_delivery_projection :
    Option IntegrationDeliveryRecord → DocumentStatus → ErpDelivery
unfolding status_and_label
erp_delivery_projection none document_status =
    let ready = status_eq document_status approved in
    record {
      status = if ready then "ready" else "not_ready";
      label = if ready then "Ready to create ERP draft" else "Not ready for ERP";
      can_create = ready;
      can_reconcile = false;
      can_retry = false;
      attempt_count = 0;
      external_id = none;
      external_url = none;
      provider_docstatus = none;
      error_code = none;
      error_message = none;
      updated_at = none;
    }
erp_delivery_projection (some r) document_status = record {
  status = (status_and_label r.status r.retryable).0;
  label = (status_and_label r.status r.retryable).1;
  can_create = false;
  can_reconcile = delivery_status_eq r.status pending || delivery_status_eq r.status unknown;
  can_retry =
      delivery_status_eq r.status failed
      && r.retryable
      && ltb r.attempt_count 3
      && status_eq document_status approved;
  attempt_count = r.attempt_count;
  external_id = r.external_id;
  external_url = r.external_url;
  provider_docstatus = r.provider_docstatus;
  error_code = r.error_code;
  error_message = r.error_detail;
  updated_at = some r.updated_at;
}
