-- ===== src/Integrations/Claims.antt =====
-- The store of deliveries: what is written is found, and a retry is claimed once.
use ai_document_ops_system.Prelude.{
  ℕ, Bool, true, false, not, ◌&&◌, ◌||◌, Option, none, some, String, List, [], ◌∷◌, ◌==◌, ◌≡◌, refl,
  ◌∙◌, sym, arith, any, str_eq, eq_iff, eq_refl, Option-cases, is_none, inl, inr, if◌then◌else◌,
  Bool-cases,
}
use ai_document_ops_system.Core.Errors.{ok}
use ai_document_ops_system.Integrations.Models.{IntegrationDeliveryRecord}
use ai_document_ops_system.Integrations.Repository.{
  has_key, find_delivery, put_delivery, save_delivery, is_claimable, claimed, find_claimable,
  claim_found, claim_retry, reserve,
}
use ai_document_ops_system.Runtime.{World}

-- What is saved is found under its own key.
pub find-put :
    (r : IntegrationDeliveryRecord) (l : List IntegrationDeliveryRecord)
    → find_delivery r.workspace_id r.adapter_name r.idempotency_key (put_delivery r l) ≡ some r
unfolding find_delivery put_delivery
find-put r [] = rw (eq_refl r.workspace_id, eq_refl r.adapter_name, eq_refl r.idempotency_key) refl
find-put r (s ∷ l) =
    ground (
      arith,
      eq_refl r.workspace_id,
      eq_refl r.adapter_name,
      eq_refl r.idempotency_key,
      find-put r l,
    )

-- Under `has_key`, the query and the record of an entry have the same key.
same_query :
    (ws name key : String) (r s : IntegrationDeliveryRecord)
    → has_key r.workspace_id r.adapter_name r.idempotency_key s ≡ true
    → has_key ws name key s ≡ has_key ws name key r
same_query ws name key r s h =
    let same_ws : s.workspace_id ≡ r.workspace_id =
      (eq_iff s.workspace_id r.workspace_id).0 (ground (arith, h)) in
    let same_name : s.adapter_name ≡ r.adapter_name =
      (eq_iff s.adapter_name r.adapter_name).0 (ground (arith, h)) in
    let same_idem : s.idempotency_key ≡ r.idempotency_key =
      (eq_iff s.idempotency_key r.idempotency_key).0 (ground (arith, h)) in
    cc

apart :
    (ws name key : String) (r s : IntegrationDeliveryRecord)
    → has_key r.workspace_id r.adapter_name r.idempotency_key s ≡ false
    → (has_key ws name key s && has_key ws name key r) ≡ false
apart ws name key r s h = ground (
  arith,
  h,
  eq_iff s.workspace_id ws,
  eq_iff s.adapter_name name,
  eq_iff s.idempotency_key key,
  eq_iff r.workspace_id ws,
  eq_iff r.adapter_name name,
  eq_iff r.idempotency_key key,
  eq_iff s.workspace_id r.workspace_id,
  eq_iff s.adapter_name r.adapter_name,
  eq_iff s.idempotency_key r.idempotency_key,
)

replaced :
    (b : Bool) (r s : IntegrationDeliveryRecord) (o : Option IntegrationDeliveryRecord)
    → (if b then some r else o) ≡ (if b then some r else if b then some s else o)
replaced true r s o = refl
replaced false r s o = refl

passed :
    (b c : Bool) (s r : IntegrationDeliveryRecord) (o : Option IntegrationDeliveryRecord)
    → (b && c) ≡ false
    → (if b then some s else if c then some r else o)
      ≡ (if c then some r else if b then some s else o)
passed true true s r o h = cc
passed true false s r o h = refl
passed false c s r o h = refl

-- A put record is given under its own key, and every other key gives what it gave before.
put_delivery-refines :
    (ws name key : String) (r : IntegrationDeliveryRecord) (l : List IntegrationDeliveryRecord)
    → find_delivery ws name key (put_delivery r l)
      ≡ (if has_key ws name key r then some r else find_delivery ws name key l)
unfolding find_delivery put_delivery
put_delivery-refines ws name key r [] = refl
put_delivery-refines ws name key r (s ∷ l) =
    elim (Bool-cases (has_key r.workspace_id r.adapter_name r.idempotency_key s)) [
      | inl same ↦
          rw (same, same_query ws name key r s same)
            (replaced (has_key ws name key r) r s (find_delivery ws name key l))
      | inr other ↦
          let rest = put_delivery-refines ws name key r l in
          rw (other, rest)
            (passed (has_key ws name key s) (has_key ws name key r) s r
              (find_delivery ws name key l) (apart ws name key r s other))
    ]

-- The record is the one of the key that a workspace, an adapter and an idempotency key make.
abbrev pub is_of : String → String → String → IntegrationDeliveryRecord → Bool
is_of ws name key r =
    str_eq r.workspace_id ws && str_eq r.adapter_name name && str_eq r.idempotency_key key

-- `existing or r`
abbrev pub kept :
    Option IntegrationDeliveryRecord → IntegrationDeliveryRecord → IntegrationDeliveryRecord
kept none r = r
kept (some existing) r = existing

-- A record is found by every spelling of its key.
find_same :
    (ws name key : String) (r : IntegrationDeliveryRecord) (l : List IntegrationDeliveryRecord)
    → is_of ws name key r ≡ true
    → find_delivery ws name key l ≡ find_delivery r.workspace_id r.adapter_name r.idempotency_key l
find_same ws name key r l h =
    let same_ws : r.workspace_id ≡ ws = (eq_iff r.workspace_id ws).0 (ground (arith, h)) in
    let same_name : r.adapter_name ≡ name = (eq_iff r.adapter_name name).0 (ground (arith, h)) in
    let same_idem : r.idempotency_key ≡ key =
      (eq_iff r.idempotency_key key).0 (ground (arith, h)) in
    cc

-- `reserve` is `setdefault` on a map from the keys (workspace, adapter, idempotency key): it returns
-- the record that the key has, or else the new one, and whether it is new; afterwards its key gives
-- that record, and any key that differs in one of the three texts gives what it gave before.
pub reserve-refines :
    (ws name key : String) (r : IntegrationDeliveryRecord) (w : World)
    → let existing =
        find_delivery r.workspace_id r.adapter_name r.idempotency_key w.tables.deliveries in
      ((reserve r w).0 ≡ ok (kept existing r, is_none existing))
      × (find_delivery ws name key (reserve r w).1.tables.deliveries ≡ (
          if is_of ws name key r
          then some (kept existing r)
          else find_delivery ws name key w.tables.deliveries))
unfolding reserve save_delivery
reserve-refines ws name key r w =
    elim (Option-cases
      (find_delivery r.workspace_id r.adapter_name r.idempotency_key w.tables.deliveries)) [
        | inl free ↦ rw free (refl, put_delivery-refines ws name key r w.tables.deliveries)
        | inr (held, taken) ↦ rw taken (
          refl,
          elim (Bool-cases (is_of ws name key r)) [
            | inl same ↦ rw same (find_same ws name key r w.tables.deliveries same ∙ taken)
            | inr other ↦ rw other refl
          ],
        )
      ]

abbrev same_key : IntegrationDeliveryRecord → IntegrationDeliveryRecord → Bool
same_key r s =
    str_eq r.workspace_id s.workspace_id
    && str_eq r.adapter_name s.adapter_name
    && str_eq r.idempotency_key s.idempotency_key

-- No two records share a key, and no two share an identifier.
unfoldable pub is_keyed : List IntegrationDeliveryRecord → Bool
is_keyed [] = true
is_keyed (r ∷ l) = not (any (λ s. same_key r s || r.id == s.id) l) && is_keyed l

abbrev clashes : IntegrationDeliveryRecord → List IntegrationDeliveryRecord → Bool
clashes r l = any (λ s. same_key r s || r.id == s.id) l

no_other :
    (id : ℕ) (s : IntegrationDeliveryRecord) (l : List IntegrationDeliveryRecord)
    → clashes s l ≡ false
    → is_claimable id s ≡ true
    → find_claimable id l ≡ none
unfolding find_claimable is_claimable
no_other id s [] apart h = refl
no_other id s (t ∷ l) apart h = ground (arith, no_other id s l)

found_apart :
    (id : ℕ) (r s : IntegrationDeliveryRecord) (l : List IntegrationDeliveryRecord)
    → clashes s l ≡ false
    → find_claimable id l ≡ some r
    → same_key s r ≡ false
unfolding find_claimable
found_apart id r s [] apart h = cc
found_apart id r s (t ∷ l) apart h = ground (arith, found_apart id r s l)

same_key_sym : (r s : IntegrationDeliveryRecord) → same_key r s ≡ true → same_key s r ≡ true
same_key_sym r s h = ground (
  arith,
  eq_iff r.workspace_id s.workspace_id,
  eq_iff r.adapter_name s.adapter_name,
  eq_iff r.idempotency_key s.idempotency_key,
  eq_iff s.workspace_id r.workspace_id,
  eq_iff s.adapter_name r.adapter_name,
  eq_iff s.idempotency_key r.idempotency_key,
)

claimed_unclaimable :
    (id : ℕ) (r : IntegrationDeliveryRecord) (at : ℕ) → is_claimable id (claimed r at) ≡ false
unfolding is_claimable claimed
claimed_unclaimable id r at = ground arith

-- Once the record that may be claimed is claimed, none may be claimed under its identifier.
claimed_gone :
    (id at : ℕ) (r : IntegrationDeliveryRecord) (l : List IntegrationDeliveryRecord)
    → is_keyed l ≡ true
    → find_claimable id l ≡ some r
    → find_claimable id (put_delivery (claimed r at) l) ≡ none
unfolding is_keyed find_claimable put_delivery claimed
claimed_gone id at r [] keyed h = cc
claimed_gone id at r (s ∷ l) keyed h = elim (Bool-cases (is_claimable id s)) [
  | inl found ↦
      let same : s ≡ r = ground (arith, h, found) in
      rw (sym same, eq_refl s.workspace_id, eq_refl s.adapter_name, eq_refl s.idempotency_key)
        (ground (arith, no_other id s l, claimed_unclaimable id s at))
  | inr passed ↦
      let later : find_claimable id l ≡ some r = ground (arith, h, passed) in
      ground (arith, claimed_gone id at r l, found_apart id r s l)
]

-- Over a store without two deliveries of one key or of one identifier, a retry that has been claimed
-- cannot be claimed again: of two requests for it, the second gets none.
pub claim_retry-once :
    (id : ℕ) (r : IntegrationDeliveryRecord) (w : World)
    → is_keyed w.tables.deliveries ≡ true
    → (claim_retry id w).0 ≡ ok (some r)
    → (claim_retry id (claim_retry id w).1).0 ≡ ok none
unfolding claim_retry claim_found save_delivery
claim_retry-once id r w keyed h = elim (Option-cases (find_claimable id w.tables.deliveries)) [
  | inl nothing ↦ absurd (ground arith)
  | inr (s, found) ↦
      rw (found, claimed_gone id (w.clock w.ticks) s w.tables.deliveries keyed found) refl
]
