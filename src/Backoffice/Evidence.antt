-- ===== src/Backoffice/Evidence.antt =====
-- backend/app/backoffice/evidence.py: what the documents of a work item give its planning to go by.

pub mod Sufficient
use ai_document_ops_system.Prelude.{
  ℕ, Bool, true, false, not, ◌&&◌, Option, none, some, is_some, String, List, [], ◌∷◌, map, any,
  select, str_eq, if◌then◌else◌,
}
use ai_document_ops_system.Prelude.Text.{concat_text, show_ℕ}
use ai_document_ops_system.Backoffice.Models.{WorkItem}
use ai_document_ops_system.Backoffice.Setup.{PlanningInput}
use ai_document_ops_system.Core.Errors.{Error, guard, not_found}
use ai_document_ops_system.Documents.Contracts.{StoredExtraction}
use ai_document_ops_system.Documents.Models.{DocumentRecord}
use ai_document_ops_system.Documents.Repositories.{get_document, get_extraction}
use ai_document_ops_system.Documents.Status.{
  DocumentStatus, extracted, needs_review, approved, exported, status_in,
}
use ai_document_ops_system.Invoice.Validation.{
  FieldPath, named, line_item_amount, ValidationIssue, is_error,
}
use ai_document_ops_system.Runtime.{M, pure, raise, lift, try, ◌>>=◌, ◌>>◌}

-- `except NotFoundError`: the missing value is `None`.
unfoldable pub none_if_missing : {A : Type 0} → Error → M (Option A)
none_if_missing not_found = pure none
none_if_missing e = raise e

unfoldable pub find_document : ℕ → M (Option DocumentRecord)
unfolding get_document none_if_missing
find_document id = try (do document ← get_document id; pure (some document)) none_if_missing

unfoldable pub find_extraction : ℕ → M (Option StoredExtraction)
unfolding get_extraction none_if_missing
find_extraction id = try (do stored ← get_extraction id; pure (some stored)) none_if_missing

abbrev pub usable_statuses : List DocumentStatus
usable_statuses = extracted ∷ needs_review ∷ approved ∷ exported ∷ []

unfoldable pub field_path_text : FieldPath → String
unfolding concat_text show_ℕ
field_path_text (named name) = name
field_path_text (line_item_amount i) = concat_text ("line_items[" ∷ show_ℕ i ∷ "].amount" ∷ [])

-- `dict.fromkeys`: each name once, where it stands first.
unfoldable pub without_repeats : List String → List String → List String
without_repeats seen [] = []
without_repeats seen (name ∷ names) =
    let new = without_repeats (name ∷ seen) names in
    let old = without_repeats seen names in if any (str_eq name) seen then old else name ∷ new

unfoldable pub missing_fields_of : Option StoredExtraction → List String
unfolding without_repeats field_path_text
missing_fields_of none = []
missing_fields_of (some stored) = without_repeats [] (
    map (λ (i : ValidationIssue). field_path_text i.field_name)
      (select is_error stored.validation_report.issues))

abbrev no_evidence : Option String → Option ℕ → PlanningInput
no_evidence requested_outcome selected = record {
  requested_outcome = requested_outcome;
  evidence_sufficient = false;
  approved_for_export = false;
  missing_fields = [];
  selected_document_id = selected;
}

-- The last part, by the document and what was extracted from it.
unfoldable pub input_of :
    Option String → ℕ → DocumentRecord → Option StoredExtraction → PlanningInput
unfolding missing_fields_of
input_of requested_outcome document_id document stored = record {
  requested_outcome = requested_outcome;
  evidence_sufficient = is_some stored && status_in document.status usable_statuses;
  approved_for_export = status_in document.status (approved ∷ exported ∷ []);
  missing_fields = missing_fields_of stored;
  selected_document_id = some document_id;
}

unfoldable pub input_from_document :
    WorkItem → Option String → ℕ → Option DocumentRecord → M PlanningInput
unfolding find_extraction input_of
input_from_document item requested_outcome document_id none =
    pure (no_evidence requested_outcome (some document_id))
input_from_document item requested_outcome document_id (some document) = do
  lift (guard (str_eq document.workspace_id item.workspace_id) not_found)
  stored ← find_extraction document_id
  pure (input_of requested_outcome document_id document stored)

unfoldable pub input_from_linked : WorkItem → Option String → List ℕ → M PlanningInput
unfolding find_document input_from_document
input_from_linked item requested_outcome [] = pure (no_evidence requested_outcome none)
input_from_linked item requested_outcome (document_id ∷ others) = do
  document ← find_document document_id
  input_from_document item requested_outcome document_id document

unfoldable pub planning_input_from_evidence : WorkItem → Option String → M PlanningInput
unfolding input_from_linked
planning_input_from_evidence item requested_outcome =
    input_from_linked item requested_outcome item.linked_document_ids
