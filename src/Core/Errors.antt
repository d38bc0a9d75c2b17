-- ===== src/Core/Errors.antt =====
-- The exceptions of the modelled code, and the result of code that may raise one. A message that is
-- only shown to people is left out.

use ai_document_ops_system.Prelude.{Bool, true, false, Option, none, some, String, [], ◌∷◌}
use ai_document_ops_system.Prelude.Text.{one_of}

-- `IntegrationDeliveryError`
pub record DeliveryError : Type 0 where
  pub message : String
  pub code : String
  pub retryable : Bool
  pub outcome_unknown : Bool

pub data Error : Type 0 where
  not_found lease_lost invalid_status_transition unauthorized : Error
  security_configuration invalid_queue_message queue_transient : Error
  export_batch_not_found export_run_not_found export_idempotency_conflict : Error
  export_eligibility value_error runtime_error : Error
  integration_delivery : DeliveryError → Error
  integration_idempotency_conflict integration_outcome_unknown integration_mapping : Error
  backoffice_workflow unsupported_backoffice_action : Error
  -- `ProviderError(message, provider_name, retryable)`
  provider_error : String → String → Bool → Error
  -- Any other exception of code that is not modelled, by the name of its class.
  other : String → Error

-- `error.__class__.__name__`
unfoldable pub class_name : Error → String
class_name not_found = "NotFoundError"
class_name lease_lost = "LeaseLostError"
class_name invalid_status_transition = "InvalidStatusTransition"
class_name unauthorized = "UnauthorizedError"
class_name security_configuration = "SecurityConfigurationError"
class_name invalid_queue_message = "InvalidQueueMessage"
class_name queue_transient = "QueueTransientError"
class_name export_batch_not_found = "ExportBatchNotFound"
class_name export_run_not_found = "ExportRunNotFound"
class_name export_idempotency_conflict = "ExportIdempotencyConflict"
class_name export_eligibility = "ExportEligibilityError"
class_name value_error = "ValueError"
class_name runtime_error = "RuntimeError"
class_name (integration_delivery e) = "IntegrationDeliveryError"
class_name integration_idempotency_conflict = "IntegrationIdempotencyConflict"
class_name integration_outcome_unknown = "IntegrationOutcomeUnknown"
class_name integration_mapping = "IntegrationMappingError"
class_name backoffice_workflow = "BackofficeWorkflowError"
class_name unsupported_backoffice_action = "UnsupportedBackofficeActionError"
class_name (provider_error message name retryable) = "ProviderError"
class_name (other name) = name

-- `isinstance(error, ValueError)`. Of the classes that are not modelled, those of the repository
-- that derive from `ValueError` are named.
unfoldable pub is_value_error : Error → Bool
unfolding one_of class_name
is_value_error e = one_of (class_name e) (
    "ValueError" ∷ "InvalidStatusTransition" ∷ "SecurityConfigurationError"
    ∷ "ExportIdempotencyConflict" ∷ "ExportEligibilityError" ∷ "IntegrationIdempotencyConflict"
    ∷ "IntegrationMappingError" ∷ "BackofficeWorkflowError" ∷ "UnsupportedBackofficeActionError"
    ∷ "StorageError" ∷ "StorageNotFoundError" ∷ "StorageTransientError" ∷ "UploadScannerUnavailable"
    ∷ "RetentionConflict" ∷ [])

pub data Result (A : Type 0) : Type 0 where
  ok : A → Result A
  err : Error → Result A

abbrev pub is_ok : {A : Type 0} → Result A → Bool
is_ok (ok a) = true
is_ok (err e) = false

-- `raise e` unless the test holds.
abbrev pub guard : Bool → Error → Result (Unit {0})
guard true e = ok tt
guard false e = err e

abbrev pub require_some : {A : Type 0} → Option A → Error → Result A
require_some none e = err e
require_some (some a) e = ok a

infixl 5 ◌>>=◌ ◌>>◌
abbrev pub ◌>>=◌ : {A B : Type 0} → Result A → (A → Result B) → Result B
ok a >>= f = f a
err e >>= f = err e

abbrev pub ◌>>◌ : {A B : Type 0} → Result A → Result B → Result B
m >> k = m >>= λ _. k
