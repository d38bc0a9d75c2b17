-- ===== src/Exports/Csv.antt =====
-- backend/app/exports/csv_security.py: cells that a spreadsheet would read as formulas.
pub mod Safety
use Prim.Native.Char.{Char, code}
use ai_document_ops_system.Prelude.{
  ℕ, Bool, true, false, ◌||◌, String, ◌==◌, if◌then◌else◌, ◌≡◌, refl,
}

-- `" \t\r\n"`
unfoldable pub is_stripped : ℕ → Bool
is_stripped c = c == 32 || c == 9 || c == 13 || c == 10

-- One of `=`, `+`, `-` and `@`.
unfoldable pub is_formula_prefix : ℕ → Bool
is_formula_prefix c = c == b'=' || c == b'+' || c == b'-' || c == b'@'

-- `value.lstrip(" \t\r\n").startswith(SPREADSHEET_FORMULA_PREFIXES)`
unfoldable pub starts_formula : String → Bool
unfolding is_stripped is_formula_prefix
starts_formula String.[] = false
starts_formula (String.◌∷◌ c s) =
    let rest = starts_formula s in if is_stripped (code c) then rest else is_formula_prefix (code c)

-- `escape_spreadsheet_formula` on a text; any other value passes unchanged.
unfoldable pub escape : String → String
unfolding starts_formula
escape value = if starts_formula value then String.◌∷◌ "'" value else value

escape_test : escape "\t=SUM(A1)" ≡ "'\t=SUM(A1)"
unfolding escape
escape_test = refl
