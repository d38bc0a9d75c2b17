-- ===== src/Exports/Repository.antt =====
-- `InMemoryExportBatchRepository` of backend/app/exports/repositories.py. A call runs under the
-- repository's lock, so it is one step.
use ai_document_ops_system.Prelude.{
  ℕ, ltb, Bool, true, false, ◌&&◌, Option, none, some, String, List, [], ◌∷◌, ◌==◌, str_eq, select,
  if◌then◌else◌,
}
use ai_document_ops_system.Core.Errors.{other, require_some}
use ai_document_ops_system.Exports.Models.{ExportBatchRecord, ExportRunRecord, RunKey}
use ai_document_ops_system.Runtime.{M, Tables, pure, lift, read, write, ◌>>=◌, ◌>>◌}

abbrev same_batch : String → ℕ → ExportBatchRecord → Bool
same_batch workspace_id id b = str_eq b.workspace_id workspace_id && b.id == id

unfoldable pub put_batch : ExportBatchRecord → List ExportBatchRecord → List ExportBatchRecord
put_batch b [] = b ∷ []
put_batch b (c ∷ cs) = if same_batch b.workspace_id b.id c then b ∷ cs else c ∷ put_batch b cs

unfoldable pub find_batch : String → ℕ → List ExportBatchRecord → Option ExportBatchRecord
find_batch workspace_id id [] = none
find_batch workspace_id id (b ∷ bs) =
    if same_batch workspace_id id b then some b else find_batch workspace_id id bs

unfoldable pub save_batch : ExportBatchRecord → M ExportBatchRecord
unfolding put_batch
save_batch b = do write (λ t. record t { batches = put_batch b t.batches }); pure b

unfoldable pub get_batch : String → ℕ → M (Option ExportBatchRecord)
unfolding find_batch
get_batch workspace_id id = read (λ t. find_batch workspace_id id t.batches)

-- `sorted(..., key=updated_at, reverse=True)`, which keeps equal entries in their order.
unfoldable pub insert_latest : ExportBatchRecord → List ExportBatchRecord → List ExportBatchRecord
insert_latest b [] = b ∷ []
insert_latest b (c ∷ cs) =
    if ltb b.updated_at c.updated_at then c ∷ insert_latest b cs else b ∷ c ∷ cs

unfoldable pub sort_latest : List ExportBatchRecord → List ExportBatchRecord
unfolding insert_latest
sort_latest [] = []
sort_latest (b ∷ bs) = insert_latest b (sort_latest bs)

unfoldable pub list_batches : String → M (List ExportBatchRecord)
unfolding sort_latest
list_batches workspace_id =
    read (λ t. sort_latest (select (λ b. str_eq b.workspace_id workspace_id) t.batches))

abbrev same_run : String → ℕ → ExportRunRecord → Bool
same_run workspace_id id r = str_eq r.workspace_id workspace_id && r.id == id

unfoldable pub put_run : ExportRunRecord → List ExportRunRecord → List ExportRunRecord
put_run r [] = r ∷ []
put_run r (s ∷ ss) = if same_run r.workspace_id r.id s then r ∷ ss else s ∷ put_run r ss

unfoldable pub find_run : String → ℕ → List ExportRunRecord → Option ExportRunRecord
find_run workspace_id id [] = none
find_run workspace_id id (r ∷ rs) =
    if same_run workspace_id id r then some r else find_run workspace_id id rs

abbrev same_key : String → String → RunKey → Bool
same_key workspace_id key k = str_eq k.workspace_id workspace_id && str_eq k.idempotency_key key

abbrev key_of : ExportRunRecord → RunKey
key_of r = record {
  workspace_id = r.workspace_id;
  idempotency_key = r.idempotency_key;
  run_id = r.id;
}

unfoldable pub put_key : RunKey → List RunKey → List RunKey
put_key k [] = k ∷ []
put_key k (j ∷ js) =
    if same_key k.workspace_id k.idempotency_key j then k ∷ js else j ∷ put_key k js

unfoldable pub find_key : String → String → List RunKey → Option ℕ
find_key workspace_id key [] = none
find_key workspace_id key (k ∷ ks) =
    if same_key workspace_id key k then some k.run_id else find_key workspace_id key ks

unfoldable pub save_run : ExportRunRecord → M ExportRunRecord
unfolding put_run put_key
save_run r = do
  write (λ t. record t { runs = put_run r t.runs; run_keys = put_key (key_of r) t.run_keys })
  pure r

unfoldable pub get_run : String → ℕ → M (Option ExportRunRecord)
unfolding find_run
get_run workspace_id id = read (λ t. find_run workspace_id id t.runs)

unfoldable pub run_by_key : Tables → String → Option ℕ → Option ExportRunRecord
unfolding find_run
run_by_key t workspace_id none = none
run_by_key t workspace_id (some id) = find_run workspace_id id t.runs

unfoldable pub get_run_by_key : String → String → M (Option ExportRunRecord)
unfolding run_by_key find_key
get_run_by_key workspace_id key =
    read (λ t. run_by_key t workspace_id (find_key workspace_id key t.run_keys))

-- A key that is taken gives the run it belongs to; a `KeyError` if that run is not stored.
unfoldable pub reserve_found :
    ExportRunRecord → Option ℕ → Option ExportRunRecord → M (ExportRunRecord × Bool)
unfolding save_run
reserve_found run none found = do stored ← save_run run; pure (stored, true)
reserve_found run (some id) found = do
  existing ← lift (require_some found (other "KeyError"))
  pure (existing, false)

unfoldable pub reserve_run : ExportRunRecord → M (ExportRunRecord × Bool)
unfolding reserve_found find_key run_by_key
reserve_run run = do
  existing ← read (λ t. find_key run.workspace_id run.idempotency_key t.run_keys)
  found ← read (λ t. run_by_key t run.workspace_id existing)
  reserve_found run existing found

unfoldable pub runs_of : String → M (List ExportRunRecord)
runs_of workspace_id = read (λ t. select (λ r. str_eq r.workspace_id workspace_id) t.runs)
