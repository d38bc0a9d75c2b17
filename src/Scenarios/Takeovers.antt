-- ===== src/Scenarios/Takeovers.antt =====
-- Two workers that claim one job.
use ai_document_ops_system.Prelude.{ℕ, none, some, [], ◌∷◌, ◌+◌, ◌≡◌, ◌≢◌, ◌<◌, refl, arith}
use ai_document_ops_system.Prelude.Dict.{lookup, insert}
use ai_document_ops_system.Core.Errors.{ok, err, lease_lost}
use ai_document_ops_system.Documents.JobModel.{ProcessingJob, running}
use ai_document_ops_system.Documents.JobStore.{claim_processable, save, is_processable, take_lease}
use ai_document_ops_system.Documents.JobStore.Takeover.{claimed_twice, taken_over}
use ai_document_ops_system.Documents.Jobs.{start, retry}
use ai_document_ops_system.Runtime.{World}
use ai_document_ops_system.Scenarios.Data.{job, held_job, tables, world}

-- The job as the first worker's claim leaves it.
abbrev mine : ProcessingJob
mine = record job {
  status = running;
  attempt_count = 1;
  started_at = some 10;
  lease_token = some 1_000;
  updated_at = 10;
}

-- The world after that claim.
abbrev claimed_world : World
claimed_world = record world {
  tables = record tables { jobs = (30, mine) ∷ (31, held_job) ∷ [] };
  drawn = 1;
  ticks = 1;
}

-- The job as the second worker's claim leaves it.
abbrev theirs : ProcessingJob
theirs = record job {
  status = running;
  attempt_count = 2;
  started_at = some 12;
  error_message = some "worker_lease_expired";
  lease_token = some 1_001;
  updated_at = 12;
}

claimed_twice_example : claim_processable 30 (some 9) 20 claimed_world ≡ (ok none, claimed_world)
unfolding claim_processable lookup insert start is_processable take_lease
claimed_twice_example =
    claimed_twice 30 none 20 job mine world 9 20 claimed_world refl refl refl refl (omega arith)

apart : (i j : ℕ) → i < j → 1_000 + i ≢ 1_000 + j
apart i j below = omega arith

taken_over_example :
    let later = (claim_processable 30 (some 50) 60 claimed_world).1 in
    save (some 1_000) mine later ≡ (err lease_lost, later)
unfolding claim_processable lookup start retry is_processable take_lease
taken_over_example =
    taken_over 30 none (some 50) 20 60 job mine mine theirs mine world claimed_world refl refl refl
      (omega arith) refl apart refl refl refl refl
