-- ===== src/Runtime.antt =====
-- What a request runs over: the tables of the repositories, the wake-up queue, the clock and the
-- source of UUIDs; and calls that change these and may raise.
pub mod Effects
pub mod Keeps
pub mod Leaves
pub mod Yields
pub mod Refuses
use ai_document_ops_system.Prelude.{
  ℕ, suc, ◌+◌, leb, Bool, Option, none, some, String, List, [], if◌then◌else◌,
}
use ai_document_ops_system.Prelude.Dict.{Dict}
use ai_document_ops_system.Core.Errors.{Error, Result, ok, err}
use ai_document_ops_system.Documents.Models.{DocumentRecord, AuditEvent, ReviewTask}
use ai_document_ops_system.Documents.JobModel.{ProcessingJob}
use ai_document_ops_system.Documents.Contracts.{StoredExtraction, MemoryQueue}
use ai_document_ops_system.Review.Models.{CorrectionEvent}
use ai_document_ops_system.Exports.Models.{ExportBatchRecord, ExportRunRecord, RunKey}
use ai_document_ops_system.Integrations.Models.{IntegrationDeliveryRecord}
use ai_document_ops_system.Agent.Contracts.{AgentRun}
use ai_document_ops_system.Backoffice.Models.{
  WorkItem, TaskPlan, ActionDraft, Approval, WorkflowEvent,
}
use ai_document_ops_system.Backoffice.Policy.{PolicyDecision}

-- One field for each repository; the export repository keeps batches, runs and the keys of runs.
pub record Tables : Type 0 where
  pub documents : Dict DocumentRecord
  pub jobs : Dict ProcessingJob
  pub audits : List AuditEvent
  pub extractions : Dict StoredExtraction
  pub reviews : Dict ReviewTask
  pub corrections : List CorrectionEvent
  pub batches : List ExportBatchRecord
  pub runs : List ExportRunRecord
  pub run_keys : List RunKey
  pub deliveries : List IntegrationDeliveryRecord
  pub work_items : Dict WorkItem
  pub plans : Dict TaskPlan
  pub drafts : Dict ActionDraft
  pub approvals : Dict Approval
  pub policy_decisions : List PolicyDecision
  pub workflow_events : List WorkflowEvent
  pub agent_runs : Dict AgentRun

-- `clock n` is the n-th reading of the clock, `uuid n` the n-th UUID drawn: any sequences.
-- `rollback` tells the transaction manager: `SqliteStore`, or `NoopTransactionManager`.
pub record World : Type 0 where
  pub tables : Tables
  pub queue : MemoryQueue
  pub stored_objects : List String
  pub last_timestamp : Option ℕ
  pub clock : ℕ → ℕ
  pub ticks : ℕ
  pub uuid : ℕ → ℕ
  pub drawn : ℕ
  pub rollback : Bool

abbrev pub M : Type 0 → Type 0
M A = World → Result A × World

abbrev pub pure : {A : Type 0} → A → M A
pure a w = (ok a, w)

abbrev pub raise : {A : Type 0} → Error → M A
raise e w = (err e, w)

abbrev pub lift : {A : Type 0} → Result A → M A
lift r w = (r, w)

abbrev pub resume : {A B : Type 0} → Result A → (A → M B) → M B
resume (ok a) f w = f a w
resume (err e) f w = (err e, w)

infixl 5 ◌>>=◌ ◌>>◌
abbrev pub ◌>>=◌ : {A B : Type 0} → M A → (A → M B) → M B
◌>>=◌ m f w = let (r, w') = m w in resume r f w'

abbrev pub ◌>>◌ : {A B : Type 0} → M A → M B → M B
m >> k = m >>= λ _. k

-- `try: m except e: handler e`
abbrev pub handle : {A : Type 0} → Result A → (Error → M A) → M A
handle (ok a) h w = (ok a, w)
handle (err e) h w = h e w

abbrev pub try : {A : Type 0} → M A → (Error → M A) → M A
try m h w = let (r, w') = m w in handle r h w'

-- `datetime.now(UTC)` and `uuid4()`
abbrev pub now : M ℕ
now w = (ok (w.clock w.ticks), record w { ticks = suc w.ticks })

abbrev pub new_uuid : M ℕ
new_uuid w = (ok (w.uuid w.drawn), record w { drawn = suc w.drawn })

abbrev pub read : {A : Type 0} → (Tables → A) → M A
read f w = (ok (f w.tables), w)

abbrev pub write : (Tables → Tables) → M (Unit {0})
write f w = (ok tt, record w { tables = f w.tables })

-- The world after the body of a `with transaction()` block that started in `before`.
abbrev pub close_transaction : {A : Type 0} → Result A → World → World → World
close_transaction (ok a) before w = w
close_transaction (err e) before w =
    if before.rollback then record w { tables = before.tables } else w

-- core/transactions.py and `SqliteStore.transaction`: a body that raises leaves its writes standing
-- under `NoopTransactionManager`, and is undone by a roll-back to the start of its block, nested or
-- not, under `SqliteStore`.
unfoldable pub transaction : {A : Type 0} → M A → M A
transaction m w = let (r, w') = m w in (r, close_transaction r w w')
