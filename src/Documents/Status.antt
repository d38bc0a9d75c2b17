-- ===== src/Documents/Status.antt =====
-- backend/app/documents/status.py: the states of a document and the transitions between them.
pub mod Paths
use ai_document_ops_system.Prelude.{
  ℕ, ◌==◌, ◌≡◌, refl, Bool, true, false, List, [], ◌∷◌, arith, any, ◌↔◌,
}

pub data DocumentStatus : Type 0 where
  uploaded queued processing extracted needs_review approved rejected failed exported cancelled :
      DocumentStatus

-- The position in the enumeration, by which two states are compared.
abbrev index : DocumentStatus → ℕ
index uploaded = 0
index queued = 1
index processing = 2
index extracted = 3
index needs_review = 4
index approved = 5
index rejected = 6
index failed = 7
index exported = 8
index cancelled = 9

abbrev pub status_eq : DocumentStatus → DocumentStatus → Bool
status_eq a b = index a == index b

pub status_eq_iff : (a b : DocumentStatus) → (status_eq a b ≡ true) ↔ (a ≡ b)
status_eq_iff a b = ground arith

abbrev pub status_in : DocumentStatus → List DocumentStatus → Bool
status_in s l = any (status_eq s) l

unfoldable pub allowed_transitions : DocumentStatus → List DocumentStatus
allowed_transitions uploaded = queued ∷ []
allowed_transitions queued = processing ∷ cancelled ∷ []
allowed_transitions processing = queued ∷ extracted ∷ failed ∷ []
allowed_transitions extracted = queued ∷ approved ∷ needs_review ∷ failed ∷ []
allowed_transitions needs_review = queued ∷ approved ∷ rejected ∷ []
allowed_transitions approved = exported ∷ []
allowed_transitions rejected = []
allowed_transitions failed = queued ∷ cancelled ∷ []
allowed_transitions exported = []
allowed_transitions cancelled = queued ∷ []

unfoldable pub can_transition : DocumentStatus → DocumentStatus → Bool
unfolding allowed_transitions
can_transition current target = status_in target (allowed_transitions current)
