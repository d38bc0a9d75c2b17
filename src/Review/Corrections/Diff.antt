-- ===== src/Review/Corrections/Diff.antt =====
-- What a list of corrections says of two versions of an invoice.
use ai_document_ops_system.Prelude.{
  ℕ, true, false, Option, none, String, List, [], ◌∷◌, ◌≡◌, refl, arith, All, Bool-cases, inl, inr,
  eq_refl,
}
use ai_document_ops_system.Core.Errors.{ok}
use ai_document_ops_system.Invoice.Schemas.{InvoiceData}
use ai_document_ops_system.Review.Corrections.{
  FlatInvoice, flatten_invoice_data, get_value, value_eq, corrections_at, correction_diff,
  decimal_eq, sort_paths, union, keys,
}
use ai_document_ops_system.Review.Corrections.Capture.{capture}
use ai_document_ops_system.Review.Models.{
  CorrectionSource, CorrectionValue, null, text, day, amount, CorrectionPath, FieldCorrection,
}
use ai_document_ops_system.Runtime.{World}

value_eq_refl : (v : CorrectionValue) → value_eq v v ≡ true
unfolding value_eq decimal_eq
value_eq_refl null = refl
value_eq_refl (text a) = eq_refl a
value_eq_refl (day a) = ground arith
value_eq_refl (amount a) = ground arith

corrections_at-same :
    (original before : FlatInvoice) (paths : List CorrectionPath)
    → corrections_at original before before paths ≡ []
unfolding corrections_at
corrections_at-same original before [] = refl
corrections_at-same original before (path ∷ paths) =
    ground (arith, value_eq_refl (get_value path before), corrections_at-same original before paths)

-- A correction that leaves the invoice as it was records no event and changes nothing.
capture-unchanged :
    (workspace_id : String) (document_id : ℕ) (before : InvoiceData) (actor : String)
    (reason : Option String) (source : CorrectionSource) (requested : Option String) (w : World)
    → capture workspace_id document_id before before actor reason source requested w ≡ (ok none, w)
unfolding capture correction_diff
capture-unchanged workspace_id document_id before actor reason source requested w =
    rw (corrections_at-same _ _ _) refl

-- What a recorded correction says: its values are those at its path, and they differ.
pub record IsCorrection (original before after : FlatInvoice) (c : FieldCorrection) : Type 0 where
  pub original_there : c.original_ai_value ≡ get_value c.field_path original
  pub before_there : c.before_value ≡ get_value c.field_path before
  pub after_there : c.after_value ≡ get_value c.field_path after
  pub differs : value_eq c.before_value c.after_value ≡ false

corrections_at_sound :
    (original before after : FlatInvoice) (paths : List CorrectionPath)
    → All (IsCorrection original before after) (corrections_at original before after paths)
unfolding corrections_at
corrections_at_sound original before after [] = tt
corrections_at_sound original before after (path ∷ paths) =
    elim (Bool-cases (value_eq (get_value path before) (get_value path after))) [
      | inl same ↦ rw same (corrections_at_sound original before after paths)
      | inr other ↦ rw other (
        record { original_there = refl; before_there = refl; after_there = refl; differs = other },
        corrections_at_sound original before after paths,
      )
    ]

-- Every correction of a list gives, at its path, the value that the model extracted, the value
-- before and the value after, and the last two differ.
correction_diff_sound :
    (original before after : InvoiceData)
    → All
        (IsCorrection
          (flatten_invoice_data original)
          (flatten_invoice_data before)
          (flatten_invoice_data after))
        (correction_diff original before after)
unfolding correction_diff
correction_diff_sound original before after =
    corrections_at_sound (flatten_invoice_data original) (flatten_invoice_data before)
      (flatten_invoice_data after)
      (sort_paths (union (keys (flatten_invoice_data before)) (keys (flatten_invoice_data after))))
