-- ===== src/Documents/RetryPolicy/Bounds.antt =====
-- Bounds on the delay before another attempt of a processing job.
use ai_document_ops_system.Prelude.{ℕ, suc, ◌+◌, ◌-◌, ◌*◌, ◌^◌, ◌%◌, ◌≤◌, min, max, ◌≡◌, arith}
use ai_document_ops_system.Documents.JobModel.{ProcessingJob}
use ai_document_ops_system.Documents.RetryPolicy.{
  RetryPolicy, new_policy, bounded_delay, jittered_delay,
}

scaled-bound : (d m j : ℕ) → d ≤ m → j ≤ 20 → d * (90 + j) * 10_000 ≤ 1_100_000 * m
scaled-bound d m j h k = grind arith

twice : (b n : ℕ) → b * 2 ^ suc n ≡ 2 * (b * 2 ^ n)
twice b n = grind arith

-- Whatever the settings, the number of attempts and the job, the delay under the policy that the
-- settings make lies between one second and the policy's longest delay with its ten per cent of
-- jitter, in microseconds.
pub jittered_delay-bounds :
    (max_attempts base_seconds max_seconds : ℕ) (job : ProcessingJob)
    → (1_000_000 ≤ jittered_delay (new_policy max_attempts base_seconds max_seconds) job)
      × (jittered_delay (new_policy max_attempts base_seconds max_seconds) job
          ≤ 1_100_000 * max (max 1 base_seconds) max_seconds)
unfolding jittered_delay bounded_delay new_policy
jittered_delay-bounds max_attempts base_seconds max_seconds job = (
  ground arith,
  ground (
    arith,
    scaled-bound
        (min (max (max 1 base_seconds) max_seconds)
          (max 1 base_seconds * 2 ^ (job.attempt_count - 1)))
        (max (max 1 base_seconds) max_seconds) (job.id % 21),
  ),
)

-- From one attempt to the next the delay without jitter doubles, until it is the policy's longest.
bounded_delay-doubles :
    (policy : RetryPolicy) (n : ℕ)
    → bounded_delay policy (suc (suc n)) ≡ min policy.max_seconds (2 * bounded_delay policy (suc n))
unfolding bounded_delay
bounded_delay-doubles policy n = ground (arith, twice policy.base_seconds n)
