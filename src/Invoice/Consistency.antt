-- ===== src/Invoice/Consistency.antt =====
-- What the rules of backend/app/validation/invoice.py promise of an invoice with no error.
use ai_document_ops_system.Prelude.{
  ℕ, suc, ◌≤◌, ◌<◌, ◌≡◌, ◌↔◌, refl, Bool, true, false, Option, none, some, String, List, [], ◌∷◌,
  ◌++◌, any, All, any-append, arith, ◌||◌, max, ◌-◌,
}
use ai_document_ops_system.Prelude.Text.{is_empty_text}
use ai_document_ops_system.Invoice.Decimal.{Decimal, add, mul, gt}
use ai_document_ops_system.Prelude.Int.{ℤ, pos, negsuc, pos_part, ◌*ℤ◌}
use ai_document_ops_system.Invoice.Near.{Near, differs-Near}
use ai_document_ops_system.Invoice.Schemas.{InvoiceLineItem, InvoiceData, Unicode}
use ai_document_ops_system.Invoice.Validation.{
  ValidationIssue, is_error, has_errors, decimal_zero, supported, validate_critical_fields,
  invalid_total_issues, mismatch_issues, validate_totals, validate_dates, validate_currency,
  amount_issues, line_item_issues, validate_line_items, validate_invoice,
}

-- A text that is given and not empty.
abbrev pub IsGiven : Option String → Type 0
IsGiven none = ⊥
IsGiven (some s) = is_empty_text s ≡ false

abbrev pub IsPresent {ℓ} : {A : Type ℓ} → Option A → Type 0
IsPresent none = ⊥
IsPresent (some a) = Unit

abbrev pub SumsUp : Option Decimal → Option Decimal → Option Decimal → Type 0
SumsUp (some s) (some x) (some t) = Near (add s x) t
SumsUp _ _ _ = Unit

abbrev pub IsPositive : Option Decimal → Type 0
IsPositive none = Unit
IsPositive (some t) = 0 < pos_part t.coefficient

abbrev pub InOrder : Option ℕ → Option ℕ → Type 0
InOrder (some a) (some b) = a ≤ b
InOrder _ _ = Unit

abbrev pub IsSupported : ⦃u : Unicode⦄ → Option String → Type 0
IsSupported none = Unit
IsSupported (some c) = supported c ≡ true

abbrev pub Multiplies : Option Decimal → Option Decimal → Option Decimal → Type 0
Multiplies (some q) (some p) (some a) = Near (mul q p) a
Multiplies _ _ _ = Unit

abbrev pub ItemMultiplies : InvoiceLineItem → Type 0
ItemMultiplies item = Multiplies item.quantity item.unit_price item.amount

-- An invoice that accounting can take: the critical fields are there, the total is positive and the
-- sum of its parts, the dates are in order, the currency is known, and each line multiplies out.
pub record IsConsistent ⦃u : Unicode⦄ (invoice : InvoiceData) : Type 0 where
  pub vendor_given : IsGiven invoice.vendor_name
  pub number_given : IsGiven invoice.invoice_number
  pub date_given : IsPresent invoice.invoice_date
  pub total_given : IsPresent invoice.total
  pub total_positive : IsPositive invoice.total
  pub sums_up : SumsUp invoice.subtotal invoice.tax invoice.total
  pub in_order : InOrder invoice.invoice_date invoice.due_date
  pub currency_supported : IsSupported invoice.currency
  pub lines_multiply : All ItemMultiplies invoice.line_items

or_false : (a b : Bool) → (a || b) ≡ false → (a ≡ false) × (b ≡ false)
or_false a b h = ground arith

no_error-append :
    (xs ys : List ValidationIssue)
    → (any is_error (xs ++ ys) ≡ false) ↔ ((any is_error xs ≡ false) × (any is_error ys ≡ false))
no_error-append xs ys = ground (arith, any-append is_error xs ys)

critical_iff :
    (invoice : InvoiceData)
    → (any is_error (validate_critical_fields invoice) ≡ false) ↔ (
        IsGiven invoice.vendor_name
        × IsGiven invoice.invoice_number
        × IsPresent invoice.invoice_date
        × IsPresent invoice.total)
unfolding validate_critical_fields
critical_iff invoice = ground arith

same_places : (p : ℕ) → (max p 0 ≡ p) × (p - p ≡ 0)
same_places p = (omega arith, omega arith)

positive_parts :
    (c : ℤ) (p : ℕ)
    → (gt (record { coefficient = c; places = p }) decimal_zero ≡ true) ↔ (0 < pos_part c)
unfolding gt ◌*ℤ◌
positive_parts (pos n) p = let (top, level) = same_places p in rw (top, level) (ground arith)
positive_parts (negsuc n) p = let (top, level) = same_places p in rw (top, level) (ground arith)

positive_lem : (t : Decimal) → (gt t decimal_zero ≡ true) ↔ (0 < pos_part t.coefficient)
positive_lem t = positive_parts t.coefficient t.places

IsPositive-iff :
    (total : Option Decimal)
    → (any is_error (invalid_total_issues total) ≡ false) ↔ IsPositive total
unfolding invalid_total_issues
IsPositive-iff none = ((λ h. tt), (λ h. refl))
IsPositive-iff (some t) = ground (arith, positive_lem t)

mismatch_iff :
    (s x t : Option Decimal) → (any is_error (mismatch_issues s x t) ≡ false) ↔ SumsUp s x t
unfolding mismatch_issues
mismatch_iff (some s) (some x) (some t) = ground (arith, differs-Near (add s x) t)
mismatch_iff (some s) (some x) none = ((λ h. tt), (λ h. refl))
mismatch_iff _ _ _ = ((λ h. tt), (λ h. refl))

totals_iff :
    (invoice : InvoiceData)
    → (any is_error (validate_totals invoice) ≡ false)
      ↔ (IsPositive invoice.total × SumsUp invoice.subtotal invoice.tax invoice.total)
unfolding validate_totals
totals_iff invoice =
    let positive = IsPositive-iff invoice.total in
    let sums = mismatch_iff invoice.subtotal invoice.tax invoice.total in
    let parts =
      no_error-append (invalid_total_issues invoice.total)
        (mismatch_issues invoice.subtotal invoice.tax invoice.total) in
    (
      (λ h. (positive.0 (parts.0 h).0, sums.0 (parts.0 h).1)),
      (λ h. parts.1 (positive.1 h.0, sums.1 h.1)),
    )

dates_iff :
    (invoice : InvoiceData)
    → (any is_error (validate_dates invoice) ≡ false)
      ↔ InOrder invoice.invoice_date invoice.due_date
unfolding validate_dates
dates_iff invoice = ground arith

currency_iff :
    ⦃u : Unicode⦄
    → (invoice : InvoiceData)
    → (any is_error (validate_currency invoice) ≡ false) ↔ IsSupported invoice.currency
unfolding validate_currency
currency_iff invoice = ground arith

amount_iff :
    (i : ℕ) (q p a : Option Decimal)
    → (any is_error (amount_issues i q p a) ≡ false) ↔ Multiplies q p a
unfolding amount_issues
amount_iff i (some q) (some p) (some a) = ground (arith, differs-Near (mul q p) a)
amount_iff i (some q) (some p) none = ((λ h. tt), (λ h. refl))
amount_iff i _ _ _ = ((λ h. tt), (λ h. refl))

lines_iff :
    (i : ℕ) (items : List InvoiceLineItem)
    → (any is_error (line_item_issues i items) ≡ false) ↔ All ItemMultiplies items
unfolding line_item_issues
lines_iff i [] = ((λ h. tt), (λ h. refl))
lines_iff i (item ∷ items) =
    let here = amount_iff i item.quantity item.unit_price item.amount in
    let there = lines_iff (suc i) items in
    let parts =
      no_error-append (amount_issues i item.quantity item.unit_price item.amount)
        (line_item_issues (suc i) items) in
    ((λ h. (here.0 (parts.0 h).0, there.0 (parts.0 h).1)), (λ h. parts.1 (here.1 h.0, there.1 h.1)))

report_iff :
    ⦃u : Unicode⦄
    → (invoice : InvoiceData)
    → (has_errors (validate_invoice invoice) ≡ false) ↔ (
        (any is_error (validate_critical_fields invoice) ≡ false)
        × (any is_error (validate_totals invoice) ≡ false)
        × (any is_error (validate_dates invoice) ≡ false)
        × (any is_error (validate_currency invoice) ≡ false)
        × (any is_error (validate_line_items invoice) ≡ false))
unfolding has_errors validate_invoice
report_iff invoice =
    let a = validate_critical_fields invoice in
    let b = validate_totals invoice in
    let c = validate_dates invoice in
    let d = validate_currency invoice in
    let e = validate_line_items invoice in
    ground (
      arith,
      any-append is_error a (b ++ (c ++ (d ++ e))),
      any-append is_error b (c ++ (d ++ e)),
      any-append is_error c (d ++ e),
      any-append is_error d e,
    )

items_iff :
    (invoice : InvoiceData)
    → (any is_error (validate_line_items invoice) ≡ false) ↔ All ItemMultiplies invoice.line_items
unfolding validate_line_items
items_iff invoice = lines_iff 0 invoice.line_items

-- The rules find no error exactly in the consistent invoices: those with a vendor, a number, a date
-- and a positive total, whose amounts sum up and multiply out within the tolerance, whose dates are
-- in order and whose currency is supported, each as far as it is given.
pub has_errors-IsConsistent :
    ⦃u : Unicode⦄
    → (invoice : InvoiceData)
    → (has_errors (validate_invoice invoice) ≡ false) ↔ IsConsistent invoice
has_errors-IsConsistent invoice =
    let parts = report_iff invoice in
    let critical = critical_iff invoice in
    let totals = totals_iff invoice in
    let dates = dates_iff invoice in
    let currency = currency_iff invoice in
    let items = items_iff invoice in
    (
      (λ h.
          let (a, b, c, d, e) = parts.0 h in
          let (vendor, number, date, total) = critical.0 a in
          let (positive, sums) = totals.0 b in
          record {
            vendor_given = vendor;
            number_given = number;
            date_given = date;
            total_given = total;
            total_positive = positive;
            sums_up = sums;
            in_order = dates.0 c;
            currency_supported = currency.0 d;
            lines_multiply = items.0 e;
          }),
      (λ k. parts.1 (
        critical.1 (k.vendor_given, k.number_given, k.date_given, k.total_given),
        totals.1 (k.total_positive, k.sums_up),
        dates.1 k.in_order,
        currency.1 k.currency_supported,
        items.1 k.lines_multiply,
      )),
    )
