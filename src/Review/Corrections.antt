-- ===== src/Review/Corrections.antt =====
-- backend/app/review/corrections.py: what a reviewer changed, field by field.
pub mod Diff
pub mod Capture
use Prim.Native.String.{◌++◌ as str_append, compare}
use Prim.Native.Nat.{Ordering}
use ai_document_ops_system.Prelude.{
  ℕ, suc, ◌==◌, ltb, Bool, true, false, not, ◌&&◌, Option, none, some, String, List, [], ◌∷◌, ◌++◌,
  str_eq, any, select, map, is_empty, if◌then◌else◌,
}
use ai_document_ops_system.Prelude.Text.{is_blank, strip, show_ℕ}
use ai_document_ops_system.Prelude.Int.{pos_part, neg_part}
use ai_document_ops_system.Core.Errors.{ok}
use ai_document_ops_system.Invoice.Decimal.{Decimal}
use ai_document_ops_system.Invoice.Schemas.{InvoiceData, InvoiceLineItem}
use ai_document_ops_system.Review.Models.{
  CorrectionSource, CorrectionReasonSource, user, reviewer_request, system_default, CorrectionValue,
  null, text, day, amount, InvoiceField, vendor_name, invoice_number, invoice_date, due_date,
  subtotal, tax, total, currency, LineItemField, description, quantity, unit_price, line_amount,
  CorrectionPath, field, line_item, FieldCorrection, CorrectionEvent,
}
use ai_document_ops_system.Runtime.{M, World, pure, read, write, now, new_uuid, ◌>>=◌, ◌>>◌}

abbrev pub invoice_fields : List InvoiceField
invoice_fields =
    vendor_name ∷ invoice_number ∷ invoice_date ∷ due_date ∷ subtotal ∷ tax ∷ total ∷ currency ∷ []

abbrev pub line_item_fields : List LineItemField
line_item_fields = description ∷ quantity ∷ unit_price ∷ line_amount ∷ []

-- `_value`
abbrev value {ℓ} : {A : Type ℓ} → (A → CorrectionValue) → Option A → CorrectionValue
value f none = null
value f (some a) = f a

-- `_value(getattr(data, field_name))`
unfoldable pub field_value : InvoiceData → InvoiceField → CorrectionValue
field_value invoice vendor_name = value text invoice.vendor_name
field_value invoice invoice_number = value text invoice.invoice_number
field_value invoice invoice_date = value day invoice.invoice_date
field_value invoice due_date = value day invoice.due_date
field_value invoice subtotal = value amount invoice.subtotal
field_value invoice tax = value amount invoice.tax
field_value invoice total = value amount invoice.total
field_value invoice currency = value text invoice.currency

unfoldable pub item_value : InvoiceLineItem → LineItemField → CorrectionValue
item_value item description = value text item.description
item_value item quantity = value amount item.quantity
item_value item unit_price = value amount item.unit_price
item_value item line_amount = value amount item.amount

abbrev pub FlatInvoice : Type 0
FlatInvoice = List (CorrectionPath × CorrectionValue)

-- The loop over `enumerate(data.line_items)`, from `index` on.
unfoldable pub flatten_items : ℕ → List InvoiceLineItem → FlatInvoice
unfolding item_value
flatten_items index [] = []
flatten_items index (item ∷ items) =
    map (λ f. (line_item index f, item_value item f)) line_item_fields
    ++ flatten_items (suc index) items

unfoldable pub flatten_invoice_data : InvoiceData → FlatInvoice
unfolding field_value flatten_items
flatten_invoice_data invoice =
    map (λ f. (field f, field_value invoice f)) invoice_fields ++ flatten_items 0 invoice.line_items

unfoldable pub field_text : InvoiceField → String
field_text vendor_name = "vendor_name"
field_text invoice_number = "invoice_number"
field_text invoice_date = "invoice_date"
field_text due_date = "due_date"
field_text subtotal = "subtotal"
field_text tax = "tax"
field_text total = "total"
field_text currency = "currency"

unfoldable pub item_field_text : LineItemField → String
item_field_text description = "description"
item_field_text quantity = "quantity"
item_field_text unit_price = "unit_price"
item_field_text line_amount = "amount"

-- The key of a path in the dictionary.
unfoldable pub path_text : CorrectionPath → String
unfolding field_text item_field_text show_ℕ
path_text (field f) = field_text f
path_text (line_item index f) =
    str_append "line_items[" (str_append (show_ℕ index) (str_append "]." (item_field_text f)))

abbrev invoice_field_index : InvoiceField → ℕ
invoice_field_index vendor_name = 0
invoice_field_index invoice_number = 1
invoice_field_index invoice_date = 2
invoice_field_index due_date = 3
invoice_field_index subtotal = 4
invoice_field_index tax = 5
invoice_field_index total = 6
invoice_field_index currency = 7

abbrev item_field_index : LineItemField → ℕ
item_field_index description = 0
item_field_index quantity = 1
item_field_index unit_price = 2
item_field_index line_amount = 3

unfoldable pub path_eq : CorrectionPath → CorrectionPath → Bool
path_eq (field f) (field g) = invoice_field_index f == invoice_field_index g
path_eq (line_item i f) (line_item j g) = i == j && item_field_index f == item_field_index g
path_eq _ _ = false

unfoldable pub decimal_eq : Decimal → Decimal → Bool
decimal_eq a b =
    pos_part a.coefficient == pos_part b.coefficient
    && neg_part a.coefficient == neg_part b.coefficient
    && a.places == b.places

-- `==` on correction values.
unfoldable pub value_eq : CorrectionValue → CorrectionValue → Bool
unfolding decimal_eq
value_eq null null = true
value_eq (text a) (text b) = str_eq a b
value_eq (day a) (day b) = a == b
value_eq (amount a) (amount b) = decimal_eq a b
value_eq _ _ = false

-- `values.get(path)`, where `None` stands for a missing path too.
unfoldable pub get_value : CorrectionPath → FlatInvoice → CorrectionValue
unfolding path_eq
get_value path [] = null
get_value path ((key, v) ∷ values) = if path_eq key path then v else get_value path values

unfoldable pub keys : FlatInvoice → List CorrectionPath
keys [] = []
keys ((key, v) ∷ values) = key ∷ keys values

abbrev member : CorrectionPath → List CorrectionPath → Bool
member path paths = any (λ key. path_eq key path) paths

-- `set(before) | set(after)`: neither dictionary holds a key twice.
unfoldable pub union : List CorrectionPath → List CorrectionPath → List CorrectionPath
unfolding path_eq
union xs ys = xs ++ select (λ path. not (member path xs)) ys

unfoldable pub text_before : CorrectionPath → CorrectionPath → Bool
unfolding path_text
text_before a b = elim (compare (path_text a) (path_text b)) [ Ordering.gt ↦ false | _ ↦ true ]

unfoldable pub insert_path : CorrectionPath → List CorrectionPath → List CorrectionPath
unfolding text_before
insert_path path [] = path ∷ []
insert_path path (key ∷ paths) =
    if text_before path key then path ∷ key ∷ paths else key ∷ insert_path path paths

-- `sorted(...)`, by the texts of the paths.
unfoldable pub sort_paths : List CorrectionPath → List CorrectionPath
unfolding insert_path
sort_paths [] = []
sort_paths (path ∷ paths) = insert_path path (sort_paths paths)

unfoldable pub corrections_at :
    FlatInvoice → FlatInvoice → FlatInvoice → List CorrectionPath → List FieldCorrection
unfolding get_value value_eq
corrections_at original before after [] = []
corrections_at original before after (path ∷ paths) =
    let rest = corrections_at original before after paths in
    if not (value_eq (get_value path before) (get_value path after))
    then record {
      field_path = path;
      original_ai_value = get_value path original;
      before_value = get_value path before;
      after_value = get_value path after;
    }
      ∷ rest
    else rest

unfoldable pub correction_diff : InvoiceData → InvoiceData → InvoiceData → List FieldCorrection
unfolding flatten_invoice_data sort_paths union keys corrections_at
correction_diff original_ai before after =
    let original_values = flatten_invoice_data original_ai in
    let before_values = flatten_invoice_data before in
    let after_values = flatten_invoice_data after in
    corrections_at original_values before_values after_values
      (sort_paths (union (keys before_values) (keys after_values)))
