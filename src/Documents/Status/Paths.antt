-- ===== src/Documents/Status/Paths.antt =====
-- Sequences of transitions allowed by backend/app/documents/status.py.
use ai_document_ops_system.Prelude.{
  ◌≡◌, refl, Bool, true, false, ◌||◌, ◌⊎◌, inl, inr, List, [], ◌∷◌, arith, Bool-cases,
}
use ai_document_ops_system.Documents.Status.{
  DocumentStatus, uploaded, extracted, needs_review, approved, rejected, exported, status_eq,
  status_eq_iff, status_in, can_transition,
}

-- The states that a document goes through, its first among them.
pub data Lifecycle : DocumentStatus → List DocumentStatus → DocumentStatus → Type 0 where
  here : (s : DocumentStatus) → Lifecycle s (s ∷ []) s
  step :
      (s : DocumentStatus) {t u : DocumentStatus} {states : List DocumentStatus}
      → can_transition s t ≡ true
      → Lifecycle t states u
      → Lifecycle s (s ∷ states) u

or_intro : (a b : Bool) → b ≡ true → (a || b) ≡ true
or_intro a b h = ground arith

starts_at :
    (s : DocumentStatus) {t : DocumentStatus} {states : List DocumentStatus}
    → Lifecycle s states t
    → status_in s states ≡ true
starts_at s (here _) = ground arith
starts_at s (step _ h rest) = ground arith

into_exported :
    (s t : DocumentStatus)
    → can_transition s t ≡ true
    → status_eq t exported ≡ true
    → status_eq s approved ≡ true
unfolding can_transition
into_exported s t h e = ground arith

approved_first :
    (s : DocumentStatus) {t : DocumentStatus} {states : List DocumentStatus}
    → status_eq s exported ≡ false
    → status_eq t exported ≡ true
    → Lifecycle s states t
    → status_in approved states ≡ true
approved_first s n e (here _) = cc
approved_first s n e (step _ {t = t} {states = states} h rest) =
    elim (Bool-cases (status_eq t exported)) [
      | inl last ↦ ground (arith, into_exported s t h last, status_eq_iff s approved)
      | inr more ↦
          or_intro (status_eq approved s) (status_in approved states) (approved_first t more e rest)
    ]

-- The states from extraction to export.
abbrev pub is_late : DocumentStatus → Bool
is_late extracted = true
is_late needs_review = true
is_late approved = true
is_late rejected = true
is_late exported = true
is_late _ = false

into_late :
    (s t : DocumentStatus)
    → can_transition s t ≡ true
    → is_late s ≡ false
    → is_late t ≡ true
    → t ≡ extracted
unfolding can_transition
into_late s t h n l = ground arith

extracted_first :
    (s : DocumentStatus) {t : DocumentStatus} {states : List DocumentStatus}
    → is_late s ≡ false
    → is_late t ≡ true
    → Lifecycle s states t
    → status_in extracted states ≡ true
extracted_first s n l (here _) = cc
extracted_first s n l (step _ {t = t} {states = states} h rest) = elim (Bool-cases (is_late t)) [
  | inl late ↦
      or_intro (status_eq extracted s) (status_in extracted states)
        (rw (← into_late s t h n late) (starts_at t rest))
  | inr early ↦
      or_intro (status_eq extracted s) (status_in extracted states) (extracted_first t early l rest)
]

-- On every way by allowed transitions from `uploaded` to `exported`, a document is extracted and
-- is approved.
pub exported_after_approved :
    {states : List DocumentStatus}
    → Lifecycle uploaded states exported
    → (status_in extracted states ≡ true) × (status_in approved states ≡ true)
exported_after_approved l =
    (extracted_first uploaded refl refl l, approved_first uploaded refl refl l)

stuck : (s t : DocumentStatus) → (s ≡ rejected) ⊎ (s ≡ exported) → can_transition s t ≡ false
unfolding can_transition
stuck s t h = ground arith

-- From `rejected` and from `exported`, no sequence of allowed transitions leads to another state.
terminal_states :
    (s : DocumentStatus) {t : DocumentStatus} {states : List DocumentStatus}
    → (s ≡ rejected) ⊎ (s ≡ exported)
    → Lifecycle s states t
    → t ≡ s
terminal_states s h (here _) = refl
terminal_states s h (step _ {t = t} p rest) = cc (stuck s t h)
