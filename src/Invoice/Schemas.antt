-- ===== src/Invoice/Schemas.antt =====
-- backend/app/extraction/schemas.py, and the Unicode tables that the rules on texts consult.
use ai_document_ops_system.Prelude.{ℕ, Bool, Option, String, List, [], ◌++◌, ◌∷◌}
use ai_document_ops_system.Invoice.Decimal.{Decimal}

-- A date is its proleptic ordinal.
pub record InvoiceLineItem : Type 0 where
  pub description : Option String
  pub quantity : Option Decimal
  pub unit_price : Option Decimal
  pub amount : Option Decimal

pub record InvoiceData : Type 0 where
  pub vendor_name : Option String
  pub invoice_number : Option String
  pub invoice_date : Option ℕ
  pub due_date : Option ℕ
  pub subtotal : Option Decimal
  pub tax : Option Decimal
  pub total : Option Decimal
  pub currency : Option String
  pub line_items : List InvoiceLineItem

-- A score is a float that the modelled code passes on and never reads; it is left out.
pub record FieldConfidence : Type 0 where
  pub field_name : String
  pub source_page : Option ℕ
  pub source_text : Option String

pub record InvoiceExtraction : Type 0 where
  pub invoice : InvoiceData
  pub schema_version : String
  pub confidence : List FieldConfidence

-- The character database behind `str.upper`, `str.casefold` and `str.isalnum`: a parameter.
pub record Unicode : Type 0 where
  pub upper : ℕ → List ℕ
  pub casefold : ℕ → List ℕ
  pub is_alnum : ℕ → Bool

-- A mapping of characters to texts, over a text.
unfoldable pub map_text : (ℕ → List ℕ) → List ℕ → List ℕ
map_text f [] = []
map_text f (c ∷ cs) = f c ++ map_text f cs
