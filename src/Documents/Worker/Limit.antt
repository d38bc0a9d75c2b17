-- ===== src/Documents/Worker/Limit.antt =====
-- The bound on the deliveries of a message.
use ai_document_ops_system.Prelude.{Bool, true, false, ◌≡◌}
use ai_document_ops_system.Documents.Queue.{QueueDisposition, abandon}
use ai_document_ops_system.Documents.RetryPolicy.{RetryPolicy}
use ai_document_ops_system.Runtime.Yields.{Yields}

abbrev pub is_abandon : QueueDisposition → Bool
is_abandon abandon = true
is_abandon _ = false

abbrev Settled : QueueDisposition → Type 0
Settled d = is_abandon d ≡ false
