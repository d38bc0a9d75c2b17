-- ===== src/Exports/Eligibility/Accepted.antt =====
-- What the selection of documents for an export promises.
use ai_document_ops_system.Prelude.{
  ℕ, suc, ◌+◌, false, Option, none, some, String, List, [], ◌∷◌, ◌≡◌, refl, sym, arith, All, any,
  length,
}
use ai_document_ops_system.Prelude.Dict.{lookup}
use ai_document_ops_system.Documents.Contracts.{StoredExtraction}
use ai_document_ops_system.Documents.Models.{DocumentRecord}
use ai_document_ops_system.Documents.Status.{DocumentStatus, status_eq_iff}
use ai_document_ops_system.Exports.Eligibility.{
  Selection, Reason, rejection, sort_out, file_document, eligible_documents, has_blockers,
  available, workspace_membership,
}
use ai_document_ops_system.Exports.Eligibility.Active.{is_held, available_in, membership_lem}
use ai_document_ops_system.Invoice.Validation.{ValidationIssue, warning, is_error}
use ai_document_ops_system.Runtime.{Tables, World}
use ai_document_ops_system.Runtime.Yields.{Returned}

-- A document that may be exported: of the workspace, approved, with a stored extraction whose issues
-- are warnings at most, and in no batch of the workspace, other than the excluded one, that is
-- ready, running or failed.
pub record IsEligible (t : Tables) (workspace_id : String) (exclude : Option ℕ) (d : DocumentRecord)
    : Type 0 where
  pub in_workspace : d.workspace_id ≡ workspace_id
  pub approved : d.status ≡ DocumentStatus.approved
  pub stored : StoredExtraction
  pub extracted : lookup d.id t.extractions ≡ some stored
  pub clean : All (λ (i : ValidationIssue). i.severity ≡ warning) stored.validation_report.issues
  pub free : is_held workspace_id exclude d.id t ≡ false

only_warnings :
    (issues : List ValidationIssue)
    → any is_error issues ≡ false
    → All (λ (i : ValidationIssue). i.severity ≡ warning) issues
only_warnings [] h = tt
only_warnings (i ∷ issues) h = (ground (arith, h), only_warnings issues (ground (arith, h)))

unblocked :
    (o : Option StoredExtraction)
    → has_blockers o ≡ false
    → (stored : StoredExtraction) × (o ≡ some stored)
      × All (λ (i : ValidationIssue). i.severity ≡ warning) stored.validation_report.issues
unfolding has_blockers
unblocked none h = cc
unblocked (some stored) h = (stored, refl, only_warnings stored.validation_report.issues h)

module _ (t : Tables) (workspace_id : String) (exclude : Option ℕ) where
  abbrev active : List (ℕ × ℕ)
  active = workspace_membership t workspace_id exclude

  abbrev find : ℕ → Option DocumentRecord
  find = available t workspace_id

  rejection-none :
      (d : DocumentRecord)
      → d.workspace_id ≡ workspace_id
      → rejection t active (some d) ≡ none
      → IsEligible t workspace_id exclude d
  unfolding rejection
  rejection-none d same h =
      let (stored, found, clean) = unblocked (lookup d.id t.extractions) (ground (arith, h)) in
      record {
        in_workspace = same;
        approved = ground (arith, h, status_eq_iff d.status DocumentStatus.approved);
        stored = stored;
        extracted = found;
        clean = clean;
        free = ground (arith, h, membership_lem t workspace_id exclude d.id);
      }

  filed_none :
      (id : ℕ) (s : Selection)
      → All (IsEligible t workspace_id exclude) s.accepted
      → All
          (IsEligible t workspace_id exclude)
          (file_document id none (rejection t active none) s).accepted
  unfolding file_document rejection
  filed_none id s h = h

  filed :
      (id : ℕ) (o : Option DocumentRecord) (s : Selection)
      → ((d : DocumentRecord) → o ≡ some d → d.workspace_id ≡ workspace_id)
      → All (IsEligible t workspace_id exclude) s.accepted
      → All
          (IsEligible t workspace_id exclude)
          (file_document id o (rejection t active o) s).accepted
  unfolding file_document
  filed id none s own h = filed_none id s h
  filed id (some d) s own h = choose (rejection t active (some d)) refl
    where
      choose :
          (r : Option Reason)
          → r ≡ rejection t active (some d)
          → All (IsEligible t workspace_id exclude) (file_document id (some d) r s).accepted
      choose none e = (rejection-none d (own d refl) (sym e), h)
      choose (some r) e = h

  sort_out-IsEligible :
      (ids : List ℕ)
      → All (IsEligible t workspace_id exclude) (sort_out find (rejection t active) ids).accepted
  unfolding sort_out
  sort_out-IsEligible [] = tt
  sort_out-IsEligible (id ∷ ids) =
      filed id (find id) _ (available_in t workspace_id id) (sort_out-IsEligible ids)

  filed-length :
      (id : ℕ) (o : Option DocumentRecord) (s : Selection) (n : ℕ)
      → length s.accepted + length s.rejected ≡ n
      → length (file_document id o (rejection t active o) s).accepted
          + length (file_document id o (rejection t active o) s).rejected
        ≡ suc n
  unfolding file_document rejection
  filed-length id o s n h = ground (arith, h)

  sort_out-length :
      (ids : List ℕ)
      → length (sort_out find (rejection t active) ids).accepted
          + length (sort_out find (rejection t active) ids).rejected
        ≡ length ids
  unfolding sort_out
  sort_out-length [] = refl
  sort_out-length (id ∷ ids) =
      filed-length id (find id) (sort_out find (rejection t active) ids) (length ids)
        (sort_out-length ids)

-- Every document that `eligible_documents` accepts is of the workspace, approved, has a stored
-- extraction whose issues are warnings at most, and is in no batch of the workspace, other than the
-- excluded one, that is ready, running or failed; and as many documents are accepted or rejected as
-- were chosen.
pub eligible_documents-IsEligible :
    (workspace_id : String) (ids : List ℕ) (exclude : Option ℕ) (w : World)
    → Returned
        (λ (s : Selection).
          All (IsEligible w.tables workspace_id exclude) s.accepted
          × (length s.accepted + length s.rejected ≡ length ids))
        (eligible_documents workspace_id ids exclude w).0
unfolding eligible_documents Returned
eligible_documents-IsEligible workspace_id ids exclude w = (
  sort_out-IsEligible w.tables workspace_id exclude ids,
  sort_out-length w.tables workspace_id exclude ids,
)
