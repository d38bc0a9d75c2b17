-- ===== src/Backoffice/Evidence/Sufficient.antt =====
-- When the evidence of a work item is sufficient, and whose documents it may come from.
use ai_document_ops_system.Prelude.{
  ℕ, Bool, true, false, not, ◌&&◌, Option, none, some, is_some, String, List, [], ◌∷◌, ◌≡◌, ◌⊎◌,
  inl, inr, refl, str_eq, Bool-cases, Option-cases, arith,
}
use ai_document_ops_system.Prelude.Dict.{lookup}
use ai_document_ops_system.Backoffice.Evidence.{input_from_linked, planning_input_from_evidence}
use ai_document_ops_system.Backoffice.Models.{WorkItem}
use ai_document_ops_system.Backoffice.Setup.{PlanningInput}
use ai_document_ops_system.Core.Errors.{Result, ok, err, not_found}
use ai_document_ops_system.Documents.Contracts.{StoredExtraction}
use ai_document_ops_system.Documents.Models.{DocumentRecord}
use ai_document_ops_system.Documents.Status.{extracted, needs_review, approved, exported, status_in}
use ai_document_ops_system.Runtime.{Tables, World}

abbrev pub first_document : List ℕ → Tables → Option DocumentRecord
first_document [] t = none
first_document (id ∷ others) t = lookup id t.documents

abbrev pub first_extraction : List ℕ → Tables → Option StoredExtraction
first_extraction [] t = none
first_extraction (id ∷ others) t = lookup id t.extractions

abbrev pub first_selected : List ℕ → Option ℕ
first_selected [] = none
first_selected (id ∷ others) = some id

abbrev pub is_foreign : WorkItem → Option DocumentRecord → Bool
is_foreign item none = false
is_foreign item (some document) = not (str_eq document.workspace_id item.workspace_id)

abbrev pub is_usable : Option DocumentRecord → Bool
is_usable none = false
is_usable (some document) =
    status_in document.status (extracted ∷ needs_review ∷ approved ∷ exported ∷ [])

abbrev pub is_exportable : Option DocumentRecord → Bool
is_exportable none = false
is_exportable (some document) = status_in document.status (approved ∷ exported ∷ [])

-- What an input says of the first linked document, `id`, and of what was extracted from it.
pub record Describes (document : Option DocumentRecord) (stored : Option StoredExtraction)
    (id : Option ℕ) (input : PlanningInput) : Type 0 where
  pub sufficient : input.evidence_sufficient ≡ (is_usable document && is_some stored)
  pub exportable : input.approved_for_export ≡ is_exportable document
  pub selected : input.selected_document_id ≡ id

-- Either the first linked document is of another workspace, and `answer` is that it is not found; or
-- it is not, and `answer` is an input that describes it.
abbrev pub Gathers : WorkItem → List ℕ → Tables → Result PlanningInput → Type 0
Gathers item ids t answer =
    ((is_foreign item (first_document ids t) ≡ true) × (answer ≡ err not_found))
    ⊎ ((is_foreign item (first_document ids t) ≡ false)
        × ((input : PlanningInput) × (answer ≡ ok input)
            × Describes (first_document ids t) (first_extraction ids t) (first_selected ids) input))

linked_Gathers :
    (item : WorkItem) (requested : Option String) (ids : List ℕ) (w : World)
    → Gathers item ids w.tables (input_from_linked item requested ids w).0
      × ((input_from_linked item requested ids w).1 ≡ w)
unfolding input_from_linked
linked_Gathers item requested [] w =
    (inr (refl, (_, refl, record { sufficient = refl; exportable = refl; selected = refl })), refl)
linked_Gathers item requested (id ∷ others) w = elim (Option-cases (lookup id w.tables.documents)) [
  | inl missing ↦ rw missing (
    inr (refl, (_, refl, record { sufficient = refl; exportable = refl; selected = refl })),
    refl,
  )
  | inr (document, found) ↦
      rw found (elim (Bool-cases (str_eq document.workspace_id item.workspace_id)) [
        | inl own ↦ rw own (elim (Option-cases (lookup id w.tables.extractions)) [
          | inl unread ↦ rw unread (
            inr (
              refl,
              (_, refl, record { sufficient = ground arith; exportable = refl; selected = refl }),
            ),
            refl,
          )
          | inr (stored, read) ↦ rw read (
            inr (
              refl,
              (_, refl, record { sufficient = ground arith; exportable = refl; selected = refl }),
            ),
            refl,
          )
        ])
        | inr foreign ↦ rw foreign (inl (refl, refl), refl)
      ])
]

-- Gathering the evidence of a work item changes nothing. Where its first linked document is stored
-- in another workspace, the answer is that it is not found. Otherwise an input is returned that
-- selects that document and calls the evidence sufficient exactly where the document is stored,
-- extracted, in review, approved or exported, and has a stored extraction; and the document is ready
-- for export exactly where it is stored and approved or exported.
pub planning_input-Gathers :
    (item : WorkItem) (requested : Option String) (w : World)
    → Gathers item item.linked_document_ids w.tables
        (planning_input_from_evidence item requested w).0
      × ((planning_input_from_evidence item requested w).1 ≡ w)
unfolding planning_input_from_evidence
planning_input-Gathers item requested w = linked_Gathers item requested item.linked_document_ids w
