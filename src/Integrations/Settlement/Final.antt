-- ===== src/Integrations/Settlement/Final.antt =====
-- What a settlement may overwrite.
use ai_document_ops_system.Prelude.{true, false, some, String, ◌≡◌, arith, Option-cases, inl, inr}
use ai_document_ops_system.Prelude.Dict.{lookup}
use ai_document_ops_system.Core.Errors.{ok, is_ok}
use ai_document_ops_system.Core.Security.{SecurityContext}
use ai_document_ops_system.Documents.Models.{DocumentRecord}
use ai_document_ops_system.Documents.Repositories.{get_document}
use ai_document_ops_system.Documents.Reading.{document_reads}
use ai_document_ops_system.Integrations.Adapter.{Connection}
use ai_document_ops_system.Integrations.Models.{
  succeeded, IntegrationDeliveryRecord, delivery_status_eq,
}
use ai_document_ops_system.Integrations.Payload.{normalize_idempotency_key}
use ai_document_ops_system.Integrations.Repository.{find_delivery, get_by_key}
use ai_document_ops_system.Integrations.Settlement.{
  Statement, reconcile_delivery, settle, settled, record_settlement, same_text,
}
use ai_document_ops_system.Runtime.{World}
use ai_document_ops_system.Runtime.Yields.{OfOk}
use ai_document_ops_system.Runtime.Effects.{
  Reads, reads_rules, Atomic, Atomic-bind, Atomic-bind-Total, Atomic-transaction, Atomic-if,
  Atomic-Reads, Total-pure,
}

-- Whatever is stated of a delivery that has succeeded, the whole world stays as it was, and the
-- statement is accepted only as the stored delivery itself: when it confirms its external id.
pub success_final :
    (c : Connection) (raw_key : String) (context : SecurityContext) (s : Statement) (key : String)
    (d : IntegrationDeliveryRecord) (w : World)
    → normalize_idempotency_key (some raw_key) ≡ ok key
    → find_delivery context.workspace_id c.adapter.name key w.tables.deliveries ≡ some d
    → delivery_status_eq d.status succeeded ≡ true
    → ((reconcile_delivery c raw_key context s w).1 ≡ w)
      × OfOk
          (λ result.
            (result ≡ d) × (s.succeeded ≡ true) × (same_text s.external_id d.external_id ≡ true))
          (reconcile_delivery c raw_key context s w).0
unfolding OfOk reconcile_delivery get_by_key get_document settle
success_final c raw_key context s key d w normal held done =
    elim (Option-cases (lookup d.document_id w.tables.documents)) [
      | inl lost ↦ ground (arith, normal, held, done, lost)
      | inr (document, found) ↦ ground (arith, normal, held, done, found)
    ]

settled-Reads :
    (s : Statement) (document : DocumentRecord) (d : IntegrationDeliveryRecord)
    → Reads (settled s document d)
unfolding settled
settled-Reads s document d = search reads_rules depth 12

-- Over a store that rolls back, a settlement that raises leaves every table as it was.
reconcile_delivery_undone :
    (c : Connection) (raw_key : String) (context : SecurityContext) (s : Statement) (w : World)
    → w.rollback ≡ true
    → is_ok (reconcile_delivery c raw_key context s w).0 ≡ false
    → (reconcile_delivery c raw_key context s w).1.tables ≡ w.tables
unfolding reconcile_delivery get_by_key settle record_settlement
reconcile_delivery_undone c raw_key context s =
    let a : Atomic (reconcile_delivery c raw_key context s) =
      search
        (
          document_reads, settled-Reads, Atomic-bind, Atomic-bind-Total, Atomic-transaction,
          Atomic-if, Atomic-Reads, Total-pure,
        )
        depth 24 in
    a.undone
