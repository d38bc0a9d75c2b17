-- ===== src/Invoice/Validation.antt =====
-- backend/app/validation/invoice.py: the deterministic rules on one invoice.
-- A field name such as `line_items[3].amount` is a value of `FieldPath`.
use Prim.Native.String.{◌++◌ as str_append}
use ai_document_ops_system.Prelude.{
  ℕ, suc, ◌==◌, ltb, Bool, true, false, not, ◌&&◌, Option, none, some, String, List, [], ◌∷◌, ◌++◌,
  any, is_none, if◌then◌else◌,
}
use ai_document_ops_system.Prelude.Text.{codes, is_empty_text}
use ai_document_ops_system.Prelude.Int.{pos}
use ai_document_ops_system.Invoice.Decimal.{Decimal, add, sub, mul, abs, gt}
use ai_document_ops_system.Invoice.Schemas.{InvoiceLineItem, InvoiceData, Unicode, map_text}

abbrev pub decimal_zero : Decimal
decimal_zero = record { coefficient = pos 0; places = 0 }

abbrev pub money_tolerance : Decimal
money_tolerance = record { coefficient = pos 1; places = 2 }

abbrev pub supported_currencies : List String
supported_currencies = "IDR" ∷ "USD" ∷ "EUR" ∷ "GBP" ∷ "SGD" ∷ "AUD" ∷ "JPY" ∷ "MYR" ∷ []

pub data IssueSeverity : Type 0 where
  error warning : IssueSeverity

pub data IssueCode : Type 0 where
  missing_critical_field invalid_total total_mismatch invalid_date_order : IssueCode
  unsupported_currency line_item_amount_mismatch duplicate_invoice : IssueCode
  potential_prompt_injection missing_field_evidence : IssueCode

pub data FieldPath : Type 0 where
  named : String → FieldPath
  line_item_amount : ℕ → FieldPath

pub record ValidationIssue : Type 0 where
  pub field_name : FieldPath
  pub severity : IssueSeverity
  pub code : IssueCode
  pub message : String

pub record ValidationReport : Type 0 where
  pub issues : List ValidationIssue

abbrev pub is_error : ValidationIssue → Bool
is_error issue = elim (issue.severity) [ error ↦ true | warning ↦ false ]

unfoldable pub has_errors : ValidationReport → Bool
has_errors report = any is_error report.issues

-- `value in (None, "")`, for a text.
unfoldable pub missing_text : Option String → Bool
missing_text none = true
missing_text (some s) = is_empty_text s

-- The fields of `CRITICAL_FIELDS` with the test that `getattr(...) in (None, "")` makes of each: a
-- date or a decimal never equals the empty text.
unfoldable pub critical_fields : InvoiceData → List (String × Bool)
unfolding missing_text
critical_fields invoice =
    ("vendor_name", missing_text invoice.vendor_name)
    ∷ ("invoice_number", missing_text invoice.invoice_number)
    ∷ ("invoice_date", is_none invoice.invoice_date)
    ∷ ("total", is_none invoice.total)
    ∷ []

unfoldable pub missing_issues : List (String × Bool) → List ValidationIssue
missing_issues [] = []
missing_issues ((name, missing) ∷ fields) =
    let rest = missing_issues fields in
    if missing
    then record {
      field_name = named name;
      severity = error;
      code = missing_critical_field;
      message = str_append name " is required";
    }
      ∷ rest
    else rest

unfoldable pub validate_critical_fields : InvoiceData → List ValidationIssue
unfolding critical_fields missing_issues
validate_critical_fields invoice = missing_issues (critical_fields invoice)

unfoldable pub invalid_total_issues : Option Decimal → List ValidationIssue
invalid_total_issues none = []
invalid_total_issues (some total) =
    if not (gt total decimal_zero)
    then record {
      field_name = named "total";
      severity = error;
      code = invalid_total;
      message = "total must be greater than 0";
    }
      ∷ []
    else []

-- `abs(expected - actual) > MONEY_TOLERANCE`
unfoldable pub differs : Decimal → Decimal → Bool
differs expected actual = gt (abs (sub expected actual)) money_tolerance

unfoldable pub mismatch_issues :
    Option Decimal → Option Decimal → Option Decimal → List ValidationIssue
mismatch_issues (some subtotal) (some tax) (some total) =
    if differs (add subtotal tax) total
    then record {
      field_name = named "total";
      severity = error;
      code = total_mismatch;
      message = "subtotal + tax must equal total within 0.01";
    }
      ∷ []
    else []
mismatch_issues _ _ _ = []

unfoldable pub validate_totals : InvoiceData → List ValidationIssue
unfolding invalid_total_issues mismatch_issues
validate_totals invoice =
    invalid_total_issues invoice.total ++ mismatch_issues invoice.subtotal invoice.tax invoice.total

unfoldable pub date_issues : Option ℕ → Option ℕ → List ValidationIssue
date_issues (some invoice_date) (some due_date) =
    if ltb due_date invoice_date
    then record {
      field_name = named "due_date";
      severity = error;
      code = invalid_date_order;
      message = "invoice_date must not be after due_date";
    }
      ∷ []
    else []
date_issues _ _ = []

unfoldable pub validate_dates : InvoiceData → List ValidationIssue
unfolding date_issues
validate_dates invoice = date_issues invoice.invoice_date invoice.due_date

-- Equality of texts as lists of code points.
unfoldable pub codes_eq : List ℕ → List ℕ → Bool
codes_eq [] [] = true
codes_eq (a ∷ as') (b ∷ bs) = a == b && codes_eq as' bs
codes_eq _ _ = false

-- `currency.upper() in SUPPORTED_CURRENCIES`
unfoldable pub supported : ⦃u : Unicode⦄ → String → Bool
unfolding codes_eq map_text
supported ⦃u⦄ currency =
    any (λ name. codes_eq (map_text u.upper (codes currency)) (codes name)) supported_currencies

unfoldable pub currency_issues : ⦃u : Unicode⦄ → Option String → List ValidationIssue
currency_issues none = []
currency_issues (some currency) =
    if not (supported currency)
    then record {
      field_name = named "currency";
      severity = error;
      code = unsupported_currency;
      message = "currency is not supported";
    }
      ∷ []
    else []

unfoldable pub validate_currency : ⦃u : Unicode⦄ → InvoiceData → List ValidationIssue
unfolding currency_issues
validate_currency invoice = currency_issues invoice.currency

unfoldable pub amount_issues :
    ℕ → Option Decimal → Option Decimal → Option Decimal → List ValidationIssue
amount_issues index (some quantity) (some unit_price) (some amount) =
    if differs (mul quantity unit_price) amount
    then record {
      field_name = line_item_amount index;
      severity = error;
      code = line_item_amount_mismatch;
      message = "quantity * unit_price must equal amount within 0.01";
    }
      ∷ []
    else []
amount_issues index _ _ _ = []

-- The loop over `enumerate(invoice.line_items)`, from `index` on.
unfoldable pub line_item_issues : ℕ → List InvoiceLineItem → List ValidationIssue
unfolding amount_issues
line_item_issues index [] = []
line_item_issues index (item ∷ items) =
    amount_issues index item.quantity item.unit_price item.amount
    ++ line_item_issues (suc index) items

unfoldable pub validate_line_items : InvoiceData → List ValidationIssue
unfolding line_item_issues
validate_line_items invoice = line_item_issues 0 invoice.line_items

unfoldable pub validate_invoice : ⦃u : Unicode⦄ → InvoiceData → ValidationReport
unfolding validate_critical_fields validate_totals validate_dates validate_currency
    validate_line_items
validate_invoice invoice = record {
  issues =
      validate_critical_fields invoice
      ++ (validate_totals invoice
          ++ (validate_dates invoice
              ++ (validate_currency invoice ++ validate_line_items invoice)));
}
