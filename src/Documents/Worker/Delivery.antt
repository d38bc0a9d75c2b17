-- ===== src/Documents/Worker/Delivery.antt =====
-- What the queue worker makes of a delivery.
use ai_document_ops_system.Prelude.{ℕ, true, ◌≡◌, refl, arith}
use ai_document_ops_system.Core.Errors.{Error, Result, ok, err, is_ok}
use ai_document_ops_system.Documents.Contracts.{ProcessingMessage}
use ai_document_ops_system.Documents.Pipeline.{Providers}
use ai_document_ops_system.Documents.RetryPolicy.{RetryPolicy}
use ai_document_ops_system.Documents.Worker.{handle_message, disposition_of}
use ai_document_ops_system.Invoice.Schemas.{Unicode}
use ai_document_ops_system.Runtime.{World, M, handle}
use ai_document_ops_system.Runtime.Effects.{Total}

disposition_of-Total : (n m : ℕ) (e : Error) → Total (disposition_of n m e)
unfolding disposition_of
disposition_of-Total n m e = record { returns = λ w. ground arith }

module _ {A : Type 0} (handler : Error → M A) where
  handled-Total :
      (r : Result A) (w : World)
      → ((e : Error) → Total (handler e))
      → is_ok (handle r handler w).0 ≡ true
  handled-Total (ok a) w h = refl
  handled-Total (err e) w h = (h e).returns w

module _ ⦃u : Unicode⦄ (p : Providers) (policy : RetryPolicy) (lease_seconds limit : ℕ) where
  pub handle_message-Total :
      (message : ProcessingMessage) (count : ℕ)
      → Total (handle_message p policy lease_seconds limit message count)
  unfolding handle_message
  handle_message-Total message count = record {
    returns =
        λ w. handled-Total (disposition_of limit count) _ _ (disposition_of-Total limit count);
  }
