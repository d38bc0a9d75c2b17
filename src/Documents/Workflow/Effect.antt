-- ===== src/Documents/Workflow/Effect.antt =====
-- What a transition writes.
use ai_document_ops_system.Prelude.{
  suc, String, Option, some, [], ◌∷◌, ◌++◌, true, false, ◌≡◌, arith,
}
use ai_document_ops_system.Prelude.Dict.{insert}
use ai_document_ops_system.Core.Errors.{ok, err, invalid_status_transition}
use ai_document_ops_system.Documents.Models.{DocumentRecord, AuditEvent}
use ai_document_ops_system.Documents.Status.{DocumentStatus, can_transition}
use ai_document_ops_system.Documents.Workflow.{transition, status_event_name}
use ai_document_ops_system.Runtime.{World}

-- The document and the audit event after a transition, and the world with both written.
abbrev pub moved : DocumentRecord → DocumentStatus → World → DocumentRecord
moved d target w = record d { status = target; updated_at = w.clock w.ticks }

abbrev pub move_event :
    DocumentRecord → DocumentStatus → String → Option String → World → AuditEvent
move_event d target actor summary w = record {
  document_id = d.id;
  event_type = status_event_name target;
  actor = actor;
  old_status = some d.status;
  new_status = some target;
  payload_summary = summary;
  id = w.uuid w.drawn;
  created_at = w.clock (suc w.ticks);
}

abbrev pub after_move : DocumentRecord → DocumentStatus → String → Option String → World → World
after_move d target actor summary w = record w {
  tables = record w.tables {
    documents = insert d.id (moved d target w) w.tables.documents;
    audits = w.tables.audits ++ move_event d target actor summary w ∷ [];
  };
  ticks = suc (suc w.ticks);
  drawn = suc w.drawn;
}

-- An allowed transition stores the document in its new state and appends one audit event with both
-- states, and touches nothing else but the clock and the source of UUIDs.
pub transition_allowed :
    (d : DocumentRecord) (target : DocumentStatus) (actor : String) (summary : Option String)
    (w : World)
    → can_transition d.status target ≡ true
    → transition d target actor summary w
      ≡ (ok (moved d target w), after_move d target actor summary w)
unfolding transition
transition_allowed d target actor summary w h = ground arith

-- A transition that the table lacks raises and changes nothing.
transition_refused :
    (d : DocumentRecord) (target : DocumentStatus) (actor : String) (summary : Option String)
    (w : World)
    → can_transition d.status target ≡ false
    → transition d target actor summary w ≡ (err invalid_status_transition, w)
unfolding transition
transition_refused d target actor summary w h = ground arith
