-- ===== src/Exports/Csv/Safety.antt =====
-- Cells that went through the escaping of backend/app/exports/csv_security.py.
use Prim.Native.Char.{code}
use ai_document_ops_system.Prelude.{
  ℕ, Bool, false, Option, none, some, String, List, [], ◌∷◌, ◌==◌, any, if◌then◌else◌, ◌≡◌, refl,
  Bool-cases, inl, inr, sym, arith,
}
use ai_document_ops_system.Exports.Csv.{starts_formula, is_stripped, is_formula_prefix, escape}

-- A blank, a tab, a carriage return or a line feed.
abbrev pub leading_blanks : List ℕ
leading_blanks = b' ' ∷ b'\t' ∷ b'\r' ∷ b'\n' ∷ []

-- The characters with which a spreadsheet starts a formula: `=`, `+`, `-` and `@`.
abbrev pub formula_signs : List ℕ
formula_signs = b'=' ∷ b'+' ∷ b'-' ∷ b'@' ∷ []

-- The first character after the leading blanks.
unfoldable pub first_visible : String → Option ℕ
first_visible String.[] = none
first_visible (String.◌∷◌ c s) =
    let rest = first_visible s in
    if any (λ blank. code c == blank) leading_blanks then rest else some (code c)

abbrev pub is_formula : Option ℕ → Bool
is_formula none = false
is_formula (some c) = any (λ sign. c == sign) formula_signs

starts_formula_lem : (value : String) → starts_formula value ≡ is_formula (first_visible value)
unfolding starts_formula is_stripped is_formula_prefix first_visible
starts_formula_lem String.[] = refl
starts_formula_lem (String.◌∷◌ c s) = ground (arith, starts_formula_lem s)

-- The first character of an escaped text after its leading blanks, tabs and line breaks is none of
-- `=`, `+`, `-` and `@`; a text that starts with none of them is left as it is, any other gets one
-- apostrophe in front; and escaping an escaped text changes nothing.
pub escape-safe :
    (value : String)
    → (is_formula (first_visible (escape value)) ≡ false)
      × (escape value ≡ (if is_formula (first_visible value) then String.◌∷◌ "'" value else value))
      × (escape (escape value) ≡ escape value)
unfolding escape starts_formula is_stripped is_formula_prefix
escape-safe value =
    rw (sym (starts_formula_lem (escape value)), sym (starts_formula_lem value))
      (elim (Bool-cases (starts_formula value)) [
        | inl is ↦ rw is (refl, refl, refl)
        | inr isnt ↦ rw (isnt, isnt) (refl, refl, refl)
      ])
