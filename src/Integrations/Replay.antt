-- ===== src/Integrations/Replay.antt =====
-- An idempotency key that a delivery already holds.
use ai_document_ops_system.Prelude.{
  ℕ, ltb, false, ◌&&◌, Option, some, String, ◌≡◌, refl, arith, str_eq, Bool-cases, inl, inr,
}
use ai_document_ops_system.Prelude.Dict.{lookup}
use ai_document_ops_system.Core.Errors.{Error, ok, is_ok}
use ai_document_ops_system.Core.Security.{SecurityContext}
use ai_document_ops_system.Documents.Models.{DocumentRecord}
use ai_document_ops_system.Documents.Status.{approved, status_eq}
use ai_document_ops_system.Integrations.Adapter.{Connection, is_erp}
use ai_document_ops_system.Integrations.Models.{
  IntegrationDeliveryStatus, pending, succeeded, failed, unknown, IntegrationDeliveryRecord,
  IntegrationInvoicePayload, delivery_status_eq,
}
use ai_document_ops_system.Integrations.Payload.{
  normalize_idempotency_key, Evidence, given, missing, require_approval_evidence,
  payload_for_document,
}
use ai_document_ops_system.Documents.Repositories.{get_extraction, get_document, find_review_task}
use ai_document_ops_system.Integrations.Projection.{erp_delivery_projection}
use ai_document_ops_system.Integrations.Repository.{find_delivery, get_by_key}
use ai_document_ops_system.Integrations.Service.{
  handle_existing_delivery, retry_failed, continue_delivery, hashed_payload, approved_review,
  on_blocked, audit_blocked,
}
use ai_document_ops_system.Integrations.Service.Sending.{send_approved_invoice, send_under_key}
use ai_document_ops_system.Runtime.Refuses.{
  Silent, Silent-pure, silent_rules, Tells-read, Refuses, Refuses-bind, Refuses-told, Tells,
}
use ai_document_ops_system.Runtime.Yields.{OfOk}
use ai_document_ops_system.Documents.Workflow.{workspace_document}
use ai_document_ops_system.Runtime.{World, M, Tables, ◌>>=◌}

module _ (c : Connection) (reason : Error → String) where
  retry_refused :
      (d : IntegrationDeliveryRecord) (document : DocumentRecord) (context : SecurityContext)
      (w : World)
      → (d.retryable && ltb d.attempt_count 3 && status_eq document.status approved) ≡ false
      → (is_ok (retry_failed c reason d document context w).0 ≡ false)
        × ((retry_failed c reason d document context w).1 ≡ w)
  unfolding retry_failed
  retry_refused d document context w h = ground arith

  -- By the state of the delivery.
  continue_refused :
      (s : IntegrationDeliveryStatus) (d : IntegrationDeliveryRecord) (document : DocumentRecord)
      (context : SecurityContext) (w : World)
      → delivery_status_eq s succeeded ≡ false
      → (delivery_status_eq s failed
          && d.retryable
          && ltb d.attempt_count 3
          && status_eq document.status approved)
        ≡ false
      → (is_ok (continue_delivery c reason s d document context w).0 ≡ false)
        × ((continue_delivery c reason s d document context w).1 ≡ w)
  unfolding continue_delivery
  continue_refused pending d document context w unsettled h = (refl, refl)
  continue_refused succeeded d document context w unsettled h = cc
  continue_refused unknown d document context w unsettled h = (refl, refl)
  continue_refused failed d document context w unsettled h = retry_refused d document context w h

  existing_refused :
      (d : IntegrationDeliveryRecord) (document : DocumentRecord) (payload_hash : String)
      (context : SecurityContext) (w : World)
      → delivery_status_eq d.status succeeded ≡ false
      → (erp_delivery_projection (some d) document.status).can_retry ≡ false
      → (is_ok (handle_existing_delivery c reason d document payload_hash context w).0 ≡ false)
        × ((handle_existing_delivery c reason d document payload_hash context w).1 ≡ w)
  unfolding handle_existing_delivery erp_delivery_projection
  existing_refused d document payload_hash context w unsettled refused =
      let refused_now = continue_refused d.status d document context w unsettled refused in
      ground (arith, refused_now)

  under_key_refused :
      (d : IntegrationDeliveryRecord) (document : DocumentRecord)
      (hashed : IntegrationInvoicePayload × String) (key : String) (context : SecurityContext)
      (w : World)
      → delivery_status_eq d.status succeeded ≡ false
      → (erp_delivery_projection (some d) document.status).can_retry ≡ false
      → (is_ok (send_under_key c reason document hashed key context (some d) w).0 ≡ false)
        × ((send_under_key c reason document hashed key context (some d) w).1 ≡ w)
  unfolding send_under_key
  under_key_refused d document (payload, payload_hash) key context w unsettled refused =
      existing_refused d document payload_hash context w unsettled refused

-- Without audit events of its own, an adapter leaves a blocked request without a trace.
module _ (c : Connection) (reason : Error → String) (quiet : is_erp c ≡ false) where
  Silent-audit_blocked :
      (document : DocumentRecord) (actor message : String)
      → Silent (audit_blocked c reason document actor message)
  unfolding audit_blocked
  Silent-audit_blocked document actor message = rw quiet (Silent-pure tt)

  Silent-on_blocked :
      {A : Type 0} (document : DocumentRecord) (actor : String) (e : Error)
      → Silent (on_blocked c reason {A = A} document actor e)
  unfolding on_blocked
  Silent-on_blocked document actor e = search (silent_rules, Silent-audit_blocked) depth 8

  Silent-approved_review :
      (document : DocumentRecord) (actor : String) (evidence : Evidence)
      → Silent (approved_review c reason document actor evidence)
  unfolding approved_review
  Silent-approved_review document actor (given review) = Silent-pure review
  Silent-approved_review document actor (missing message) =
      search (silent_rules, Silent-audit_blocked) depth 8

  Silent-hashed_payload : (document : DocumentRecord) → Silent (hashed_payload c reason document)
  unfolding hashed_payload payload_for_document get_extraction
  Silent-hashed_payload document = search silent_rules depth 12

  Silent-evidence : (document : DocumentRecord) → Silent (require_approval_evidence document)
  unfolding require_approval_evidence find_review_task
  Silent-evidence document = search silent_rules depth 12

  -- The key is held and the document known.
  abbrev Held :
      SecurityContext → ℕ → DocumentRecord → String → IntegrationDeliveryRecord → Tables → Type 0
  Held context id document key d t =
      (lookup id t.documents ≡ some document)
      × (find_delivery context.workspace_id c.adapter.name key t.deliveries ≡ some d)

  told_document :
      (id : ℕ) (context : SecurityContext) (document : DocumentRecord) (key : String)
      (d : IntegrationDeliveryRecord)
      → Tells (Held context id document key d) document (workspace_document id context.workspace_id)
  unfolding workspace_document get_document OfOk
  told_document id context document key d = record {
    told = λ w h. elim (Bool-cases (str_eq document.workspace_id context.workspace_id)) [
      | inl same ↦ rw (h.0, same) (refl, refl)
      | inr other ↦ rw (h.0, other) (tt, refl)
    ];
  }

  told_delivery :
      (id : ℕ) (context : SecurityContext) (document : DocumentRecord) (key : String)
      (d : IntegrationDeliveryRecord)
      → Tells
          (Held context id document key d)
          (some d)
          (get_by_key context.workspace_id c.adapter.name key)
  unfolding get_by_key
  told_delivery id context document key d = Tells-read _ _ (λ t h. h.1)

  after_document :
      {B : Type 0} (id : ℕ) (context : SecurityContext) (document : DocumentRecord) (key : String)
      (d : IntegrationDeliveryRecord) (f : DocumentRecord → M B)
      → Refuses (Held context id document key d) (f document)
      → Refuses (Held context id document key d) (workspace_document id context.workspace_id >>= f)
  after_document id context document key d f h =
      Refuses-told _ f document (told_document id context document key d) h

  after_delivery :
      {B : Type 0} (id : ℕ) (context : SecurityContext) (document : DocumentRecord) (key : String)
      (d : IntegrationDeliveryRecord) (f : Option IntegrationDeliveryRecord → M B)
      → Refuses (Held context id document key d) (f (some d))
      → Refuses
          (Held context id document key d)
          (get_by_key context.workspace_id c.adapter.name key >>= f)
  after_delivery id context document key d f h =
      Refuses-told _ f (some d) (told_delivery id context document key d) h

  Refuses-under_key :
      (id : ℕ) (context : SecurityContext) (document : DocumentRecord) (key : String)
      (d : IntegrationDeliveryRecord) (hashed : IntegrationInvoicePayload × String)
      → delivery_status_eq d.status succeeded ≡ false
      → (erp_delivery_projection (some d) document.status).can_retry ≡ false
      → Refuses
          (Held context id document key d)
          (send_under_key c reason document hashed key context (some d))
  Refuses-under_key id context document key d hashed unsettled no_retry = record {
    refused = λ w h. under_key_refused c reason d document hashed key context w unsettled no_retry;
  }

  send-Refuses :
      (id : ℕ) (context : SecurityContext) (given_key : Option String) (key : String)
      (document : DocumentRecord) (d : IntegrationDeliveryRecord)
      → normalize_idempotency_key given_key ≡ ok key
      → delivery_status_eq d.status succeeded ≡ false
      → (erp_delivery_projection (some d) document.status).can_retry ≡ false
      → Refuses
          (Held context id document key d)
          (send_approved_invoice c reason id context given_key)
  unfolding send_approved_invoice
  send-Refuses id context given_key key document d normal unsettled no_retry =
      rw (quiet, normal)
        (search
          (
            Refuses-bind,
            silent_rules,
            Silent-evidence,
            Silent-approved_review,
            Silent-hashed_payload,
            Silent-on_blocked,
            after_document,
            after_delivery,
            λ (hashed : IntegrationInvoicePayload × String).
                Refuses-under_key id context document key d hashed unsettled no_retry,
          )
          depth 24)

-- Through an adapter other than ERPNext's, a request under a key that a delivery holds which has
-- not succeeded, and which the interface does not offer to retry (its outcome is open, it failed
-- for good, it was attempted three times, or the document is not approved), is refused; the whole
-- world is as before, so the provider is not called and no attempt is recorded.
pub unoffered_refused :
    (c : Connection) (reason : Error → String) (id : ℕ) (context : SecurityContext)
    (given_key : Option String) (key : String) (document : DocumentRecord)
    (d : IntegrationDeliveryRecord) (w : World)
    → is_erp c ≡ false
    → normalize_idempotency_key given_key ≡ ok key
    → lookup id w.tables.documents ≡ some document
    → find_delivery context.workspace_id c.adapter.name key w.tables.deliveries ≡ some d
    → delivery_status_eq d.status succeeded ≡ false
    → (erp_delivery_projection (some d) document.status).can_retry ≡ false
    → (is_ok (send_approved_invoice c reason id context given_key w).0 ≡ false)
      × ((send_approved_invoice c reason id context given_key w).1 ≡ w)
unoffered_refused c reason id context given_key key document d w quiet normal found held unsettled
      no_retry =
    let r =
      send-Refuses c reason quiet id context given_key key document d normal unsettled no_retry in
    r.refused w (found, held)
