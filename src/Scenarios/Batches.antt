-- ===== src/Scenarios/Batches.antt =====
-- Export batches and their runs.
use ai_document_ops_system.Prelude.{
  if◌then◌else◌, ℕ, ◌+◌, ◌==◌, ◌≡◌, refl, String, Option, none, some, List, [], ◌∷◌, Bool, true,
  false, All, length,
}
use ai_document_ops_system.Core.Errors.{ok}
use ai_document_ops_system.Documents.Status.{DocumentStatus}
use ai_document_ops_system.Exports.Csv.{escape}
use ai_document_ops_system.Exports.Csv.Safety.{is_formula, first_visible, escape-safe}
use ai_document_ops_system.Exports.Eligibility.{
  Selection, sort_out, available, rejection, workspace_membership, eligible_documents, checks_pass,
}
use ai_document_ops_system.Exports.Eligibility.Accepted.{IsEligible, eligible_documents-IsEligible}
use ai_document_ops_system.Exports.Eligibility.Checks.{checks_pass-rejected}
use ai_document_ops_system.Exports.Execution.{Reservation}
use ai_document_ops_system.Exports.Execution.Finishing.{execute}
use ai_document_ops_system.Exports.Execution.Replay.{execute-replay}
use ai_document_ops_system.Exports.Repository.{run_by_key, find_key}
use ai_document_ops_system.Prelude.Text.{strip, is_empty_text}
use ai_document_ops_system.Runtime.Yields.{Returned}
use ai_document_ops_system.Scenarios.Data.{
  world, tables, document, batch, run, setup, admin_context,
}

execute-replay_example : execute setup admin_context 51 "key " world ≡ (ok run, world)
unfolding run_by_key find_key strip is_empty_text
execute-replay_example =
    execute-replay setup admin_context 51 "key " world run refl refl refl refl refl

abbrev reservation : Reservation
reservation = record {
  batch = batch;
  run = run;
  documents = document 2 DocumentStatus.approved ∷ [];
  started_at = 5;
}

eligible_documents-IsEligible_example :
    Returned
      (λ (s : Selection).
        All (IsEligible tables "ws" (some 50)) s.accepted
        × (length s.accepted + length s.rejected ≡ 2))
      (eligible_documents "ws" (1 ∷ 2 ∷ []) (some 50) world).0
eligible_documents-IsEligible_example =
    eligible_documents-IsEligible "ws" (1 ∷ 2 ∷ []) (some 50) world

checks_pass-rejected_example :
    (sort_out
      (available tables "ws")
      (rejection tables (workspace_membership tables "ws" (some 50)))
      (2 ∷ [])).rejected
    ≡ []
unfolding checks_pass ai_document_ops_system.Prelude.Dict.lookup
    ai_document_ops_system.Prelude.Dict.values
checks_pass-rejected_example = checks_pass-rejected tables "ws" batch setup.destinations refl

escape-safe_example :
    (is_formula (first_visible (escape "=1+1")) ≡ false)
    × (escape "=1+1" ≡ (if is_formula (first_visible "=1+1") then "'=1+1" else "=1+1"))
    × (escape (escape "=1+1") ≡ escape "=1+1")
escape-safe_example = escape-safe "=1+1"
