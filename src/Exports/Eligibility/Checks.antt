-- ===== src/Exports/Eligibility/Checks.antt =====
-- The checks of a ready batch against the selection that fills it.
use ai_document_ops_system.Prelude.{
  ℕ, Bool, true, false, not, ◌&&◌, Option, none, some, String, List, [], ◌∷◌, ◌≡◌, refl, arith, all,
  map,
}
use ai_document_ops_system.Prelude.Dict.{lookup}
use ai_document_ops_system.Documents.Models.{DocumentRecord}
use ai_document_ops_system.Documents.Status.{DocumentStatus, status_eq}
use ai_document_ops_system.Exports.Eligibility.{
  ExportDestination, Selection, rejection, sort_out, file_document, has_blockers, contains_key,
  available, workspace_membership, checks_pass, document_checks, all_present,
}
use ai_document_ops_system.Exports.Models.{ExportBatchRecord}
use ai_document_ops_system.Runtime.{Tables}

-- The tests of the checks, on one document.
abbrev passes : Tables → List (ℕ × ℕ) → Option DocumentRecord → Bool
passes t active none = false
passes t active (some d) =
    status_eq d.status DocumentStatus.approved
    && not (has_blockers (lookup d.id t.extractions))
    && not (status_eq d.status DocumentStatus.exported)
    && not (contains_key d.id active)

module _ (t : Tables) (active : List (ℕ × ℕ)) where
  passes-rejection :
      (o : Option DocumentRecord) → passes t active o ≡ true → rejection t active o ≡ none
  unfolding rejection
  passes-rejection none h = cc
  passes-rejection (some d) h = ground (arith, h)

  filed-rejected :
      (id : ℕ) (o : Option DocumentRecord) (s : Selection)
      → passes t active o ≡ true
      → s.rejected ≡ []
      → (file_document id o (rejection t active o) s).rejected ≡ []
  unfolding file_document
  filed-rejected id none s h e = cc
  filed-rejected id (some d) s h e = rw (passes-rejection (some d) h) e

  each_passes :
      (os : List (Option DocumentRecord))
      → all_present (λ d. status_eq d.status DocumentStatus.approved) os ≡ true
      → all_present (λ d. not (has_blockers (lookup d.id t.extractions))) os ≡ true
      → all_present (λ d. not (status_eq d.status DocumentStatus.exported)) os ≡ true
      → all_present (λ d. not (contains_key d.id active)) os ≡ true
      → all (passes t active) os ≡ true
  each_passes [] a b e f = refl
  each_passes (none ∷ os) a b e f = cc
  each_passes (some d ∷ os) a b e f =
      let rest =
        each_passes os (ground (arith, a)) (ground (arith, b)) (ground (arith, e))
          (ground (arith, f)) in
      ground (arith, a, b, e, f, rest)

  all_pass :
      (selected : List (Option DocumentRecord))
      → ((document_checks t selected active).all_approved
          && (document_checks t selected active).no_blockers
          && (document_checks t selected active).not_exported
          && (document_checks t selected active).no_other_batch)
        ≡ true
      → all (passes t active) selected ≡ true
  unfolding document_checks
  all_pass selected h =
      each_passes selected (ground (arith, h)) (ground (arith, h)) (ground (arith, h))
        (ground (arith, h))

  sort_out-rejected :
      (find : ℕ → Option DocumentRecord) (ids : List ℕ)
      → all (passes t active) (map find ids) ≡ true
      → (sort_out find (rejection t active) ids).rejected ≡ []
  unfolding sort_out
  sort_out-rejected find [] h = refl
  sort_out-rejected find (id ∷ ids) h =
      filed-rejected id (find id) _ (ground (arith, h))
        (sort_out-rejected find ids (ground (arith, h)))

-- Where the checks of a batch all pass, the selection of `eligible_documents`, run on the batch's
-- documents with the batch itself excluded, rejects none.
pub checks_pass-rejected :
    (t : Tables) (workspace_id : String) (batch : ExportBatchRecord)
    (destinations : List ExportDestination)
    → checks_pass t workspace_id batch destinations ≡ true
    → (sort_out
        (available t workspace_id)
        (rejection t (workspace_membership t workspace_id (some batch.id)))
        batch.document_ids).rejected
      ≡ []
unfolding checks_pass
checks_pass-rejected t workspace_id batch destinations h =
    let active = workspace_membership t workspace_id (some batch.id) in
    sort_out-rejected t active (available t workspace_id) batch.document_ids
      (all_pass t active (map (available t workspace_id) batch.document_ids) (ground (arith, h)))
