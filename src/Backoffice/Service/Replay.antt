-- ===== src/Backoffice/Service/Replay.antt =====
-- A work item requested again under its idempotency key.
use ai_document_ops_system.Prelude.{true, false, Option, some, String, str_eq, ◌≡◌, refl, arith}
use ai_document_ops_system.Prelude.Dict.{values}
use ai_document_ops_system.Backoffice.Models.{WorkItem}
use ai_document_ops_system.Backoffice.Planning.{normalized_key, require_matching_fingerprint}
use ai_document_ops_system.Backoffice.Service.{create_work_item, existing_item, create_or_replay}
use ai_document_ops_system.Backoffice.Setup.{Assistant, WorkItemIdentity}
use ai_document_ops_system.Backoffice.Store.{first_with_key, get_item_by_key}
use ai_document_ops_system.Core.Errors.{ok, err, backoffice_workflow}
use ai_document_ops_system.Core.Security.{SecurityContext}
use ai_document_ops_system.Runtime.{World, transaction}

-- Under a key that a work item of the caller's workspace holds, a request with the fingerprint that
-- is stored with it gives that work item and changes nothing.
create_work_item-replay :
    (a : Assistant) (context : SecurityContext) (request : WorkItemIdentity)
    (raw_key : Option String) (key : String) (w : World) (item : WorkItem) (held : String)
    → normalized_key raw_key ≡ ok (some key)
    → first_with_key context.workspace_id key (values w.tables.work_items) ≡ some item
    → item.idempotency_fingerprint ≡ some held
    → str_eq held (a.work_item_fingerprint request) ≡ true
    → create_work_item a context request raw_key w ≡ (ok item, w)
unfolding create_work_item existing_item get_item_by_key create_or_replay transaction
    require_matching_fingerprint
create_work_item-replay a context request raw_key key w item held normal found stored same =
    rw (normal, found, stored, same) refl

-- Under a key that a work item of the caller's workspace holds, a request with another fingerprint
-- than the stored one is refused, and no table is changed.
create_work_item-conflict :
    (a : Assistant) (context : SecurityContext) (request : WorkItemIdentity)
    (raw_key : Option String) (key : String) (w : World) (item : WorkItem) (held : String)
    → normalized_key raw_key ≡ ok (some key)
    → first_with_key context.workspace_id key (values w.tables.work_items) ≡ some item
    → item.idempotency_fingerprint ≡ some held
    → str_eq held (a.work_item_fingerprint request) ≡ false
    → ((create_work_item a context request raw_key w).0 ≡ err backoffice_workflow)
      × ((create_work_item a context request raw_key w).1.tables ≡ w.tables)
unfolding create_work_item existing_item get_item_by_key create_or_replay transaction
    require_matching_fingerprint
create_work_item-conflict a context request raw_key key w item held normal found stored other =
    rw (normal, found, stored, other) (refl, ground arith)
