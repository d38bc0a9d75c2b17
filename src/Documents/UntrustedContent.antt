-- ===== src/Documents/UntrustedContent.antt =====
-- backend/app/validation/untrusted_content.py: what the text of a PDF and the excerpts given for
-- each value say against an extraction. The searches by regular expressions are a parameter.
use ai_document_ops_system.Prelude.{
  ℕ, Bool, false, not, ◌&&◌, Option, none, some, String, List, [], ◌∷◌, ◌++◌, ◌==◌, str_eq,
  is_empty, any, if◌then◌else◌,
}
use ai_document_ops_system.Prelude.Text.{is_empty_text, contains}
use ai_document_ops_system.Documents.Contracts.{ParsedPage, ParsedDocument}
use ai_document_ops_system.Invoice.Decimal.{Decimal, gt}
use ai_document_ops_system.Invoice.Schemas.{InvoiceData, FieldConfidence, InvoiceExtraction}
use ai_document_ops_system.Invoice.Validation.{
  ValidationIssue, named, error, potential_prompt_injection, missing_field_evidence,
}

-- `contains_prompt_injection`, `_dates_in_text`, `_decimals_in_text` and `_searchable`.
pub record TextSearch : Type 0 where
  pub contains_prompt_injection : String → Bool
  pub dates_in_text : String → List ℕ
  pub decimals_in_text : String → List Decimal
  pub searchable : String → String

-- The value of a field that needs evidence.
pub data FieldValue : Type 0 where
  text : String → FieldValue
  day : ℕ → FieldValue
  amount : Decimal → FieldValue

abbrev value_of {ℓ} : {A : Type ℓ} → (A → FieldValue) → Option A → Option FieldValue
value_of f none = none
value_of f (some a) = some (f a)

-- `EVIDENCE_REQUIRED_FIELDS` with `getattr(extraction.data, field_name)`.
unfoldable pub evidence_required_fields : InvoiceData → List (String × Option FieldValue)
evidence_required_fields invoice =
    ("vendor_name", value_of text invoice.vendor_name)
    ∷ ("invoice_number", value_of text invoice.invoice_number)
    ∷ ("invoice_date", value_of day invoice.invoice_date)
    ∷ ("total", value_of amount invoice.total)
    ∷ ("currency", value_of text invoice.currency)
    ∷ []

unfoldable pub find_page : ℕ → List ParsedPage → String
find_page page_number [] = ""
find_page page_number (page ∷ pages) =
    if page.page_number == page_number then page.text else find_page page_number pages

unfoldable pub page_text : ParsedDocument → ℕ → String
unfolding find_page
page_text parsed page_number =
    if is_empty parsed.pages
    then if page_number == 1 then parsed.text else ""
    else find_page page_number parsed.pages

abbrev injection_issue : ValidationIssue
injection_issue = record {
  field_name = named "document";
  severity = error;
  code = potential_prompt_injection;
  message =
      "The PDF contains text that looks like instructions to the AI. Verify the invoice manually and correct its fields before approval.";
}

abbrev evidence_issue : String → ValidationIssue
evidence_issue name = record {
  field_name = named name;
  severity = error;
  code = missing_field_evidence;
  message = "This AI value has no matching PDF excerpt. Verify or correct it before approval.";
}

module _ (s : TextSearch) where
  unfoldable pub matches_value : FieldValue → String → Bool
  matches_value (text value) source =
      let wanted = s.searchable value in
      not (is_empty_text wanted) && contains wanted (s.searchable source)
  matches_value (day value) source = any (λ d. d == value) (s.dates_in_text source)
  matches_value (amount value) source =
      any (λ d. not (gt d value) && not (gt value d)) (s.decimals_in_text source)

  unfoldable pub supports_found : Option ℕ → Option String → FieldValue → ParsedDocument → Bool
  unfolding matches_value page_text
  supports_found (some page) (some source) value parsed =
      not (is_empty_text source)
      && contains source (page_text parsed page)
      && matches_value value source
  supports_found _ _ value parsed = false

  unfoldable pub supports_value : FieldConfidence → FieldValue → ParsedDocument → Bool
  unfolding supports_found
  supports_value evidence value parsed =
      supports_found evidence.source_page evidence.source_text value parsed

  -- The loop over the fields.
  unfoldable pub evidence_issues :
      List FieldConfidence
      → ParsedDocument
      → List (String × Option FieldValue)
      → List ValidationIssue
  unfolding supports_value
  evidence_issues confidence parsed [] = []
  evidence_issues confidence parsed ((name, none) ∷ fields) =
      evidence_issues confidence parsed fields
  evidence_issues confidence parsed ((name, some value) ∷ fields) =
      let rest = evidence_issues confidence parsed fields in
      if any (λ item. str_eq item.field_name name && supports_value item value parsed) confidence
      then rest
      else evidence_issue name ∷ rest

  unfoldable pub validate_untrusted_extraction :
      InvoiceExtraction → ParsedDocument → String → List ValidationIssue
  unfolding evidence_issues evidence_required_fields
  validate_untrusted_extraction extraction parsed provider_name =
      (if s.contains_prompt_injection parsed.text then injection_issue ∷ [] else [])
      ++ (if not (str_eq provider_name "llm_json")
          then []
          else evidence_issues extraction.confidence parsed
              (evidence_required_fields extraction.invoice))
