-- ===== src/Integrations/Repository.antt =====
-- `InMemoryIntegrationDeliveryRepository` of backend/app/integrations/repositories.py: a dictionary
-- in insertion order, whose keys are read from the records. A call runs under the repository's lock,
-- so it is one step.
use ai_document_ops_system.Prelude.{
  ℕ, suc, ltb, Bool, true, false, ◌&&◌, Option, none, some, String, List, [], ◌∷◌, ◌==◌, str_eq,
  select, if◌then◌else◌,
}
use ai_document_ops_system.Integrations.Models.{
  IntegrationDeliveryRecord, pending, failed, delivery_status_eq,
}
use ai_document_ops_system.Runtime.{M, pure, read, write, now, ◌>>=◌, ◌>>◌}

abbrev pub has_key : String → String → String → IntegrationDeliveryRecord → Bool
has_key workspace_id adapter_name key r =
    str_eq r.workspace_id workspace_id
    && str_eq r.adapter_name adapter_name
    && str_eq r.idempotency_key key

-- `self.records.get((workspace_id, adapter_name, key))`
unfoldable pub find_delivery :
    String → String → String → List IntegrationDeliveryRecord → Option IntegrationDeliveryRecord
find_delivery workspace_id adapter_name key [] = none
find_delivery workspace_id adapter_name key (r ∷ rs) =
    if has_key workspace_id adapter_name key r
    then some r
    else find_delivery workspace_id adapter_name key rs

-- `self.records[_record_key(record)] = record`
unfoldable pub put_delivery :
    IntegrationDeliveryRecord → List IntegrationDeliveryRecord → List IntegrationDeliveryRecord
put_delivery r [] = r ∷ []
put_delivery r (s ∷ ss) =
    if has_key r.workspace_id r.adapter_name r.idempotency_key s
    then r ∷ ss
    else s ∷ put_delivery r ss

unfoldable pub save_delivery : IntegrationDeliveryRecord → M IntegrationDeliveryRecord
unfolding put_delivery
save_delivery r = do write (λ t. record t { deliveries = put_delivery r t.deliveries }); pure r

unfoldable pub get_by_key : String → String → String → M (Option IntegrationDeliveryRecord)
unfolding find_delivery
get_by_key workspace_id adapter_name key =
    read (λ t. find_delivery workspace_id adapter_name key t.deliveries)

unfoldable pub reserve_free :
    IntegrationDeliveryRecord
    → Option IntegrationDeliveryRecord
    → M (IntegrationDeliveryRecord × Bool)
unfolding save_delivery
reserve_free r none = do stored ← save_delivery r; pure (stored, true)
reserve_free r (some existing) = pure (existing, false)

unfoldable pub reserve : IntegrationDeliveryRecord → M (IntegrationDeliveryRecord × Bool)
unfolding get_by_key reserve_free
reserve r = do
  existing ← get_by_key r.workspace_id r.adapter_name r.idempotency_key
  reserve_free r existing

-- `max(..., key=updated_at)`: the first of the latest.
unfoldable pub later_of :
    IntegrationDeliveryRecord → List IntegrationDeliveryRecord → IntegrationDeliveryRecord
later_of best [] = best
later_of best (r ∷ rs) = later_of (if ltb best.updated_at r.updated_at then r else best) rs

unfoldable pub latest : List IntegrationDeliveryRecord → Option IntegrationDeliveryRecord
unfolding later_of
latest [] = none
latest (r ∷ rs) = some (later_of r rs)

unfoldable pub get_for_document : String → String → ℕ → M (Option IntegrationDeliveryRecord)
unfolding latest
get_for_document workspace_id adapter_name document_id = read (λ t. latest (
    select
      (λ r.
        str_eq r.workspace_id workspace_id
        && str_eq r.adapter_name adapter_name
        && r.document_id == document_id)
      t.deliveries))

-- A failed delivery that may be tried again.
unfoldable pub is_claimable : ℕ → IntegrationDeliveryRecord → Bool
is_claimable id r = r.id == id && delivery_status_eq r.status failed && r.retryable

unfoldable pub claimed : IntegrationDeliveryRecord → ℕ → IntegrationDeliveryRecord
claimed r at = record r {
  status = pending;
  retryable = false;
  error_code = none;
  attempt_count = suc r.attempt_count;
  updated_at = at;
}

unfoldable pub find_claimable :
    ℕ → List IntegrationDeliveryRecord → Option IntegrationDeliveryRecord
unfolding is_claimable
find_claimable id [] = none
find_claimable id (r ∷ rs) = if is_claimable id r then some r else find_claimable id rs

unfoldable pub claim_found : Option IntegrationDeliveryRecord → M (Option IntegrationDeliveryRecord)
unfolding claimed save_delivery
claim_found none = pure none
claim_found (some r) = do at ← now; stored ← save_delivery (claimed r at); pure (some stored)

unfoldable pub claim_retry : ℕ → M (Option IntegrationDeliveryRecord)
unfolding find_claimable claim_found
claim_retry id = do found ← read (λ t. find_claimable id t.deliveries); claim_found found
