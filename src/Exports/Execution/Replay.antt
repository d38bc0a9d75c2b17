-- ===== src/Exports/Execution/Replay.antt =====
-- An idempotency key that a run already holds.
use ai_document_ops_system.Prelude.{ℕ, true, false, Option, some, String, ◌==◌, ◌≡◌, refl, arith}
use ai_document_ops_system.Prelude.Text.{is_empty_text, strip}
use ai_document_ops_system.Core.Errors.{ok, err, export_idempotency_conflict}
use ai_document_ops_system.Core.Security.{SecurityContext, require_admin}
use ai_document_ops_system.Exports.Execution.{
  ExportSetup, reserve, reserve_or_replay, reconcile_replayed_run,
}
use ai_document_ops_system.Exports.Execution.Finishing.{execute, finish}
use ai_document_ops_system.Exports.Models.{ExportRunRecord, in_progress, run_status_eq}
use ai_document_ops_system.Exports.Repository.{run_by_key, find_key, get_run_by_key}
use ai_document_ops_system.Runtime.{World, transaction}

abbrev pub held_by : World → String → String → Option ExportRunRecord
held_by w workspace_id key =
    run_by_key w.tables workspace_id (find_key workspace_id key w.tables.run_keys)

-- A request by an administrator under a key that an ended run of the same batch holds, blanks
-- around the key aside, returns that run and changes nothing, whatever has become of the batch.
pub execute-replay :
    (setup : ExportSetup) (c : SecurityContext) (batch_id : ℕ) (key : String) (w : World)
    (run : ExportRunRecord)
    → c.is_admin ≡ true
    → is_empty_text (strip key) ≡ false
    → held_by w c.workspace_id (strip key) ≡ some run
    → (run.batch_id == batch_id) ≡ true
    → run_status_eq run.status in_progress ≡ false
    → execute setup c batch_id key w ≡ (ok run, w)
unfolding execute require_admin reserve get_run_by_key reserve_or_replay transaction
    reconcile_replayed_run finish
execute-replay setup c batch_id key w run admin filled held same ended =
    rw (admin, filled, held, same, ended) refl

-- A request by an administrator under a key that a run of another batch holds, blanks around the
-- key aside, is refused as a conflict, and no table is changed.
execute-conflict :
    (setup : ExportSetup) (c : SecurityContext) (batch_id : ℕ) (key : String) (w : World)
    (run : ExportRunRecord)
    → c.is_admin ≡ true
    → is_empty_text (strip key) ≡ false
    → held_by w c.workspace_id (strip key) ≡ some run
    → (run.batch_id == batch_id) ≡ false
    → ((execute setup c batch_id key w).0 ≡ err export_idempotency_conflict)
      × ((execute setup c batch_id key w).1.tables ≡ w.tables)
unfolding execute require_admin reserve get_run_by_key reserve_or_replay transaction
    reconcile_replayed_run
execute-conflict setup c batch_id key w run admin filled held other =
    rw (admin, filled, held, other) (refl, ground arith)
