-- ===== src/Exports/Eligibility.antt =====
-- backend/app/exports/eligibility.py: which invoices an export batch may take.
pub mod Accepted
pub mod Active
pub mod Checks
use ai_document_ops_system.Prelude.{
  ℕ, Bool, true, false, not, ◌&&◌, ◌||◌, Option, none, some, String, List, [], ◌∷◌, ◌++◌, ◌==◌,
  opt_eq, str_eq, any, all, is_empty, is_some, select, map, if◌then◌else◌,
}
use ai_document_ops_system.Prelude.Dict.{Dict, lookup, values}
use ai_document_ops_system.Prelude.Text.{one_of}
use ai_document_ops_system.Core.Errors.{ok}
use ai_document_ops_system.Documents.Contracts.{StoredExtraction}
use ai_document_ops_system.Documents.Models.{DocumentRecord}
use ai_document_ops_system.Documents.Status.{DocumentStatus, status_eq}
use ai_document_ops_system.Exports.Models.{ExportBatchRecord, ExportBatchStatus, batch_status_eq}
use ai_document_ops_system.Exports.Repository.{list_batches, sort_latest}
use ai_document_ops_system.Invoice.Validation.{is_error}
use ai_document_ops_system.Runtime.{M, Tables, World, pure, read, ◌>>=◌, ◌>>◌}

pub record ExportDestination : Type 0 where
  pub id : String
  pub formats : List String

-- `batch.status in ACTIVE_BATCH_STATUSES`
unfoldable pub is_active : ExportBatchRecord → Bool
is_active b =
    batch_status_eq b.status ExportBatchStatus.ready
    || batch_status_eq b.status ExportBatchStatus.running
    || batch_status_eq b.status ExportBatchStatus.failed

abbrev pub contains_key : ℕ → List (ℕ × ℕ) → Bool
contains_key k membership = any (λ entry. entry.0 == k) membership

-- The inner loop of `active_membership`: `membership.setdefault(document_id, batch.id)`.
unfoldable pub set_defaults : ℕ → List ℕ → List (ℕ × ℕ) → List (ℕ × ℕ)
set_defaults batch_id [] membership = membership
set_defaults batch_id (id ∷ ids) membership =
    set_defaults batch_id ids
      (if contains_key id membership then membership else membership ++ (id, batch_id) ∷ [])

unfoldable pub is_excluded : Option ℕ → ExportBatchRecord → Bool
unfolding is_active
is_excluded exclude b = opt_eq (some b.id) exclude || not (is_active b)

unfoldable pub membership_from : Option ℕ → List ExportBatchRecord → List (ℕ × ℕ) → List (ℕ × ℕ)
unfolding is_excluded set_defaults
membership_from exclude [] membership = membership
membership_from exclude (b ∷ bs) membership =
    membership_from exclude bs
      (if is_excluded exclude b then membership else set_defaults b.id b.document_ids membership)

unfoldable pub active_membership : List ExportBatchRecord → Option ℕ → List (ℕ × ℕ)
unfolding membership_from
active_membership batches exclude = membership_from exclude batches []

-- `bool(self.validation_blockers(document_id))`
unfoldable pub has_blockers : Option StoredExtraction → Bool
has_blockers none = true
has_blockers (some stored) = any is_error stored.validation_report.issues

-- `documents.list_by_workspace(workspace_id)` as a dictionary, read at one key.
unfoldable pub available : Tables → String → ℕ → Option DocumentRecord
available t workspace_id id =
    lookup id
      (map (λ d. (d.id, d)) (select (λ d. str_eq d.workspace_id workspace_id) (values t.documents)))

pub data Reason : Type 0 where
  not_in_workspace already_exported not_approved unresolved_blockers in_another_batch : Reason

-- The chain of tests of `eligible_documents`, for one document.
unfoldable pub rejection : Tables → List (ℕ × ℕ) → Option DocumentRecord → Option Reason
unfolding has_blockers
rejection t active none = some not_in_workspace
rejection t active (some document) =
    if status_eq document.status DocumentStatus.exported
    then some already_exported
    else if not (status_eq document.status DocumentStatus.approved)
    then some not_approved
    else if has_blockers (lookup document.id t.extractions)
    then some unresolved_blockers
    else if contains_key document.id active
    then some in_another_batch
    else none

-- The shorter chain of `workspace_documents`, for drafts.
unfoldable pub draft_rejection : List (ℕ × ℕ) → Option DocumentRecord → Option Reason
draft_rejection active none = some not_in_workspace
draft_rejection active (some document) =
    if status_eq document.status DocumentStatus.exported
    then some already_exported
    else if contains_key document.id active
    then some in_another_batch
    else none

pub record Selection : Type 0 where
  pub accepted : List DocumentRecord
  pub rejected : List (ℕ × Reason)

unfoldable pub file_document : ℕ → Option DocumentRecord → Option Reason → Selection → Selection
file_document id document (some reason) s = record s { rejected = (id, reason) ∷ s.rejected }
file_document id (some document) none s = record s { accepted = document ∷ s.accepted }
file_document id none none s = s

-- The loop over the chosen documents, for either chain of tests.
unfoldable pub sort_out :
    (ℕ → Option DocumentRecord) → (Option DocumentRecord → Option Reason) → List ℕ → Selection
unfolding file_document
sort_out find reason [] = record { accepted = []; rejected = [] }
sort_out find reason (id ∷ ids) =
    let document = find id in file_document id document (reason document) (sort_out find reason ids)

abbrev pub workspace_membership : Tables → String → Option ℕ → List (ℕ × ℕ)
workspace_membership t workspace_id exclude =
    active_membership (sort_latest (select (λ b. str_eq b.workspace_id workspace_id) t.batches))
      exclude

unfoldable pub eligible_documents : String → List ℕ → Option ℕ → M Selection
unfolding available rejection sort_out active_membership sort_latest
eligible_documents workspace_id document_ids exclude = read (λ t.
    sort_out (available t workspace_id) (rejection t (workspace_membership t workspace_id exclude))
      document_ids)

unfoldable pub workspace_documents : String → List ℕ → Option ℕ → M Selection
unfolding available draft_rejection sort_out active_membership sort_latest
workspace_documents workspace_id document_ids exclude = read (λ t.
    sort_out (available t workspace_id)
      (draft_rejection (workspace_membership t workspace_id exclude)) document_ids)

-- `all(test(document) for document in selected)` where every document is there.
abbrev pub all_present : (DocumentRecord → Bool) → List (Option DocumentRecord) → Bool
all_present p selected = all (λ o. elim o [ none ↦ false | some d ↦ p d ]) selected

pub record DocumentChecks : Type 0 where
  pub all_approved : Bool
  pub no_blockers : Bool
  pub not_exported : Bool
  pub no_other_batch : Bool

-- `_document_checks`
unfoldable pub document_checks :
    Tables → List (Option DocumentRecord) → List (ℕ × ℕ) → DocumentChecks
unfolding has_blockers
document_checks t selected active =
    let given = not (is_empty selected) in
    record {
      all_approved =
          given && all_present (λ d. status_eq d.status DocumentStatus.approved) selected;
      no_blockers =
          given && all_present (λ d. not (has_blockers (lookup d.id t.extractions))) selected;
      not_exported =
          given && all_present (λ d. not (status_eq d.status DocumentStatus.exported)) selected;
      no_other_batch = given && all_present (λ d. not (contains_key d.id active)) selected;
    }

unfoldable pub destination_available : String → String → List ExportDestination → Bool
unfolding one_of
destination_available destination export_format destinations =
    any (λ item. str_eq item.id destination && one_of export_format item.formats) destinations

-- `checks`, as the conjunction of the states of its five entries, which is what is made of it.
unfoldable pub checks_pass : Tables → String → ExportBatchRecord → List ExportDestination → Bool
unfolding available document_checks destination_available active_membership sort_latest
checks_pass t workspace_id batch destinations =
    let active = workspace_membership t workspace_id (some batch.id) in
    let checks = document_checks t (map (available t workspace_id) batch.document_ids) active in
    checks.all_approved
    && checks.no_blockers
    && checks.not_exported
    && checks.no_other_batch
    && destination_available batch.destination batch.export_format destinations
