-- ===== src/Integrations/Payload.antt =====
-- What a delivery is made of: the payload of a document, the idempotency key and the evidence of an
-- approval. backend/app/integrations/services.py.
use ai_document_ops_system.Prelude.{
  ℕ, leb, Bool, true, false, not, ◌&&◌, ◌||◌, Option, none, some, String, List, [], ◌∷◌, length,
  all, map, str_eq, is_some, ◌==◌, if◌then◌else◌,
}
use ai_document_ops_system.Prelude.Text.{codes, concat_text, strip, is_empty_text}
use ai_document_ops_system.Core.Errors.{
  Result, ok, err, guard, value_error, invalid_status_transition,
}
use ai_document_ops_system.Documents.Models.{DocumentRecord, ReviewTask}
use ai_document_ops_system.Documents.Repositories.{get_extraction, find_review_task}
use ai_document_ops_system.Documents.Status.{approved, exported, status_eq}
use ai_document_ops_system.Integrations.Adapter.{Rendering, Connection}
use ai_document_ops_system.Integrations.Models.{IntegrationLineItem, IntegrationInvoicePayload}
use ai_document_ops_system.Invoice.Schemas.{InvoiceData, InvoiceLineItem}
use ai_document_ops_system.Invoice.Validation.{has_errors}
use ai_document_ops_system.Runtime.{M, pure, lift, ◌>>=◌, ◌>>◌}

abbrev map_option : {A B : Type 0} → (A → B) → Option A → Option B
map_option f none = none
map_option f (some a) = some (f a)

-- `value or ""`
unfoldable pub or_empty : Option String → String
or_empty none = ""
or_empty (some value) = value

-- `not value` for an optional text.
unfoldable pub is_missing : Option String → Bool
unfolding is_empty_text
is_missing none = true
is_missing (some value) = is_empty_text value

abbrev line_item : Rendering → InvoiceLineItem → IntegrationLineItem
line_item r item = record {
  description = item.description;
  quantity = map_option r.decimal_text item.quantity;
  unit_price = map_option r.decimal_text item.unit_price;
  amount = map_option r.decimal_text item.amount;
}

-- `_payload`
unfoldable pub payload_of : Rendering → DocumentRecord → InvoiceData → IntegrationInvoicePayload
payload_of r document invoice = record {
  document_id = r.uuid_text document.id;
  workspace_id = document.workspace_id;
  vendor_name = invoice.vendor_name;
  invoice_number = invoice.invoice_number;
  invoice_date = map_option r.date_text invoice.invoice_date;
  due_date = map_option r.date_text invoice.due_date;
  subtotal = map_option r.decimal_text invoice.subtotal;
  tax = map_option r.decimal_text invoice.tax;
  total = map_option r.decimal_text invoice.total;
  currency = invoice.currency;
  line_items = map (line_item r) invoice.line_items;
}

unfoldable pub payload_for_document : Connection → DocumentRecord → M IntegrationInvoicePayload
unfolding get_extraction payload_of
payload_for_document c document = do
  stored ← get_extraction document.id
  lift (guard (not (has_errors stored.validation_report)) invalid_status_transition)
  pure (payload_of c.rendering document stored.extraction_result.extraction.invoice)

abbrev is_ascii_alnum : ℕ → Bool
is_ascii_alnum c = (leb 65 c && leb c 90) || (leb 97 c && leb c 122) || (leb 48 c && leb c 57)

-- A letter, a digit, or one of `.`, `_`, `:` and `-`.
unfoldable pub is_key_char : ℕ → Bool
is_key_char c = is_ascii_alnum c || c == 46 || c == 95 || c == 58 || c == 45

-- `IDEMPOTENCY_KEY_PATTERN.fullmatch`
unfoldable pub matches_key : List ℕ → Bool
unfolding is_key_char
matches_key [] = false
matches_key (c ∷ cs) =
    is_ascii_alnum c && all is_key_char cs && leb 7 (length cs) && leb (length cs) 127

unfoldable pub normalize_idempotency_key : Option String → Result String
unfolding or_empty strip matches_key
normalize_idempotency_key value =
    let normalized = strip (or_empty value) in
    if matches_key (codes normalized) then ok normalized else err value_error

-- `_derived_delivery_key`
unfoldable pub derived_delivery_key : Rendering → DocumentRecord → ℕ → String
unfolding concat_text
derived_delivery_key r document review_id = concat_text (
    "erpnext:"
    ∷ r.sha256_hex (
        concat_text (
          document.workspace_id
          ∷ "\0"
          ∷ r.uuid_text document.id
          ∷ "\0"
          ∷ r.uuid_text review_id
          ∷ []))
    ∷ [])

-- The review that approved a document, or the message of the `InvalidStatusTransition`.
pub data Evidence : Type 0 where
  given : ReviewTask → Evidence
  missing : String → Evidence

abbrev is_complete : ReviewTask → Bool
is_complete review =
    str_eq review.status "approved"
    && not (is_missing review.reviewed_by)
    && is_some review.reviewed_at

unfoldable pub evidence_in : Option ReviewTask → Evidence
unfolding is_missing
evidence_in none = missing "Human approval evidence is missing"
evidence_in (some review) =
    if is_complete review then given review else missing "Human approval evidence is incomplete"

-- `_require_approval_evidence`
unfoldable pub require_approval_evidence : DocumentRecord → M Evidence
unfolding find_review_task evidence_in
require_approval_evidence document =
    if status_eq document.status approved || status_eq document.status exported
    then (do found ← find_review_task document.id; pure (evidence_in found))
    else pure (missing "Only approved documents can be sent to outbound integrations")
