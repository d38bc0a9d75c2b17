-- ===== src/Documents/RetryPolicy.antt =====
-- backend/app/documents/processing_policy.py. A delay is in microseconds; Python's float arithmetic
-- gives the same for delays below a century.
pub mod Bounds
use Prim.Native.String.{◌++◌ as str_append}
use ai_document_ops_system.Prelude.{
  ℕ, ◌+◌, ◌-◌, ◌*◌, ◌^◌, ◌%◌, ◌/◌, min, max, ltb, Bool, true, false, ◌&&◌, Option, String,
}
use ai_document_ops_system.Core.Errors.{Error, provider_error, class_name, ok}
use ai_document_ops_system.Documents.JobModel.{ProcessingJob}
use ai_document_ops_system.Runtime.{M, World, pure, now, ◌>>=◌, ◌>>◌}

pub record RetryPolicy : Type 0 where
  pub max_attempts : ℕ
  pub base_seconds : ℕ
  pub max_seconds : ℕ

-- `ProcessingRetryPolicy(...)` with what `__post_init__` makes of the two delays.
unfoldable pub new_policy : ℕ → ℕ → ℕ → RetryPolicy
new_policy max_attempts base_seconds max_seconds =
    let base = max 1 base_seconds in
    record { max_attempts = max_attempts; base_seconds = base; max_seconds = max base max_seconds }

unfoldable pub error_code : Error → String
unfolding class_name
error_code (provider_error message name retryable) = str_append "provider_error:" name
error_code e = class_name e

-- `isinstance(error, ProviderError) and error.retryable`
unfoldable pub is_retryable : Error → Bool
is_retryable (provider_error message name retryable) = retryable
is_retryable e = false

unfoldable pub should_retry : RetryPolicy → Error → ProcessingJob → Bool
unfolding is_retryable
should_retry policy e job = is_retryable e && ltb job.attempt_count policy.max_attempts

-- `min(self.max_seconds, self.base_seconds * (2**exponent))`
unfoldable pub bounded_delay : RetryPolicy → ℕ → ℕ
bounded_delay policy attempts = min policy.max_seconds (policy.base_seconds * 2 ^ (attempts - 1))

-- `max(1.0, bounded * (1 + jitter_percent / 100))` for `jitter_percent = id % 21 - 10`.
unfoldable pub jittered_delay : RetryPolicy → ProcessingJob → ℕ
unfolding bounded_delay
jittered_delay policy job =
    max 1_000_000 (bounded_delay policy job.attempt_count * (90 + job.id % 21) * 10_000)

unfoldable pub next_attempt_at : RetryPolicy → ProcessingJob → M ℕ
unfolding jittered_delay
next_attempt_at policy job = do t ← now; pure (t + jittered_delay policy job)
