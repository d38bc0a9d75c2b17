-- ===== src/Documents/Queue.antt =====
-- backend/app/documents/processing_queue.py: wake-up messages. The JSON text of a body is taken as
-- decoded.
use ai_document_ops_system.Prelude.{
  ℕ, ◌+◌, leb, Bool, true, false, not, ◌&&◌, Option, none, some, String, List, [], ◌∷◌, ◌++◌, ◌==◌,
  if◌then◌else◌, length,
}
use ai_document_ops_system.Prelude.Text.{codes, is_blank, is_empty_text}
use ai_document_ops_system.Core.Errors.{
  Error, Result, ok, err, guard, invalid_queue_message, queue_transient,
}
use ai_document_ops_system.Core.Errors
use ai_document_ops_system.Core.Security.{SecurityContext}
use ai_document_ops_system.Documents.Contracts.{
  ProcessingMessage, MessageBody, malformed, infinite_version, decoded, MemoryDelivery,
}
use ai_document_ops_system.Documents.JobModel.{ProcessingJob}
use ai_document_ops_system.Documents.Models.{DocumentRecord}
use ai_document_ops_system.Runtime.{M, World, pure, raise, lift, try, new_uuid, ◌>>=◌}

abbrev pub message_schema_version : ℕ
message_schema_version = 1

pub data QueueDisposition : Type 0 where
  complete abandon dead_letter : QueueDisposition

-- `not value.strip() or len(value) > 128` does not hold.
unfoldable pub is_acceptable : String → Bool
unfolding is_blank
is_acceptable value = not (is_blank value) && leb (length (codes value)) 128

-- `ProcessingMessage.__post_init__`
unfoldable pub check_message : ProcessingMessage → Result ProcessingMessage
unfolding is_acceptable
check_message m =
    if m.schema_version == message_schema_version
      && is_acceptable m.workspace_id
      && is_acceptable m.trace_id
    then ok m
    else err invalid_queue_message

unfoldable pub to_json : ProcessingMessage → MessageBody
to_json m = decoded m

-- `OverflowError` is none of the exceptions that are turned into `InvalidQueueMessage`.
unfoldable pub from_json : MessageBody → Result ProcessingMessage
unfolding check_message
from_json malformed = err invalid_queue_message
from_json infinite_version = err (Errors.other "OverflowError")
from_json (decoded m) = check_message m

abbrev set_pending : List MemoryDelivery → World → World
set_pending l w = record w { queue = record w.queue { pending = l } }

unfoldable pub publish : ProcessingMessage → M (Unit {0})
unfolding to_json
publish m w =
    (ok tt, set_pending (w.queue.pending ++ record { body = to_json m; delivery_count = 1 } ∷ []) w)

-- What becomes of a delivery that has been taken off the queue.
unfoldable pub settle : MemoryDelivery → QueueDisposition → World → World
settle delivery complete w = w
settle delivery abandon w =
    let again =
      let d : MemoryDelivery = record delivery { delivery_count = delivery.delivery_count + 1 } in
      d in
    set_pending (w.queue.pending ++ again ∷ []) w
settle delivery dead_letter w = record w {
  queue = record w.queue { dead_letters = w.queue.dead_letters ++ delivery ∷ [] };
}

-- `except InvalidQueueMessage`: any other exception of the handler passes through.
unfoldable pub dead_letter_invalid : Error → M QueueDisposition
dead_letter_invalid invalid_queue_message = pure dead_letter
dead_letter_invalid e = raise e

unfoldable pub receive_front :
    List MemoryDelivery → (ProcessingMessage → ℕ → M QueueDisposition) → M Bool
unfolding from_json dead_letter_invalid settle
receive_front [] handler w = (ok false, w)
receive_front (delivery ∷ rest) handler w =
    (do
      disposition ←
          try (do message ← lift (from_json delivery.body); handler message delivery.delivery_count)
            dead_letter_invalid
      λ w'. (ok true, settle delivery disposition w'))
      (set_pending rest w)

-- `InMemoryProcessingQueue.receive_one`
unfoldable pub receive_one : (ProcessingMessage → ℕ → M QueueDisposition) → M Bool
unfolding receive_front
receive_one handler w = receive_front w.queue.pending handler w

-- `context.trace_id or uuid4().hex`; the hex text of a UUID is a parameter of the program's text.
unfoldable pub trace_or_new : (ℕ → String) → Option String → M String
unfolding is_empty_text
trace_or_new hex none = do id ← new_uuid; pure (hex id)
trace_or_new hex (some trace) =
    if is_empty_text trace then (do id ← new_uuid; pure (hex id)) else pure trace

-- `except QueueError`, of which `InvalidQueueMessage` and `QueueTransientError` are subclasses.
unfoldable pub ignore_queue_error : Error → M (Unit {0})
ignore_queue_error invalid_queue_message = pure tt
ignore_queue_error queue_transient = pure tt
ignore_queue_error e = raise e

unfoldable pub publish_wakeup :
    (ℕ → String) → ProcessingJob → DocumentRecord → SecurityContext → M (Unit {0})
unfolding trace_or_new check_message publish ignore_queue_error
publish_wakeup hex job document context w =
    if not w.queue.enabled
    then (ok tt, w)
    else (do
      trace ← trace_or_new hex context.trace_id
      try
          (do
            message ← lift (
                check_message (record {
                  job_id = job.id;
                  document_id = document.id;
                  workspace_id = document.workspace_id;
                  trace_id = trace;
                  schema_version = message_schema_version;
                }))
            publish message)
          ignore_queue_error)
        w
