-- ===== src/System/LateSamples.antt =====
-- A concrete history: an attempt times out, its retry fails, and the verdict on the run is not saved yet.
use job_schedular.Base.{◌≡◌, ◌==◌, refl, none, some, [], ◌∷◌, Memᴰ}
use job_schedular.Table.{count, select, find?, update, exists}
use job_schedular.OrderBy.Insertion.{sort_by, insert_by}
use job_schedular.Models.{JobAttempt, new_run, new_attempt}
use job_schedular.Models.Status.{RunStatus, AttemptStatus}
use job_schedular.Models.Samples.{nightly, clock, unlocked}
use job_schedular.Worker.Claim.{claim_attempt, candidates, claim_row, claimed_by, priority_order}
use job_schedular.Worker.Executor.{returned}
use job_schedular.Worker.Main.{of_run, result_of, finished_with}
use job_schedular.Scheduler.Watchdog.{timed_out_at}
use job_schedular.Scheduler.Watchdog.Transaction.{commit_expiry}
use job_schedular.Api.Jobs.{trigger_job, trigger_found, create_run, create_first_attempt}
use job_schedular.System.Verdicts.{settled_status, updated_status}
use job_schedular.System.Steps.{State, Reach, next, looks, counts, expires, claims, reports, judges}
use job_schedular.System.Alone.{Reach-of_alone}
use job_schedular.System.Samples.{
  at_start, claimed, first_claim, claim_reached, by_schedule, report_failed,
}

abbrev pub timed_out_claim : JobAttempt
timed_out_claim = record first_claim {
  status = AttemptStatus.timed_out;
  finished_at = some 50000000;
  error_message = some "Lease expired — worker likely crashed";
}

abbrev retry_claim : JobAttempt
retry_claim = record {
  id = 2;
  job_run_id = 0;
  job_id = 7;
  attempt_number = 2;
  status = AttemptStatus.running;
  priority = "HIGH";
  worker_id = some "worker-b";
  fencing_token = 1;
  lease_expires_at = some 95000100;
  scheduled_for = 50000000;
  started_at = some 50000100;
  finished_at = none;
  duration = none;
  error_message = none;
  created_at = 100;
}

-- The retry has failed, and its worker has decided that the run has failed for good.
abbrev pub judged_late : State
judged_late = record {
  db = record {
    jobs = nightly ∷ [];
    runs = new_run 0 7 100 100 ∷ [];
    attempts =
        timed_out_claim
        ∷ record retry_claim {
          status = AttemptStatus.failed;
          finished_at = some 50000300;
          duration = some 1500000;
          error_message = some "boom";
        }
        ∷ [];
    workers = [];
    events = [];
    next_id = 3;
  };
  handed = retry_claim ∷ first_claim ∷ [];
  read = nightly ∷ [];
  started = [];
  expiring = [];
  verdicts = record { run_id = 0; status = RunStatus.permanently_failed } ∷ [];
}

pub late_reached : Reach at_start judged_late
unfolding claim_attempt trigger_job trigger_found create_run create_first_attempt new_run
    new_attempt candidates claim_row claimed_by find? select update count sort_by insert_by
    priority_order commit_expiry timed_out_at result_of finished_with updated_status settled_status
    exists
late_reached =
    next
      (next
        (next
          (next
            (next (next (Reach-of_alone claim_reached) (looks 1 50000000 first_claim refl refl))
              (counts (record { row = first_claim; total_attempts = none }) [] [] refl))
            (expires clock 50000000 1 nightly
              (record { row = first_claim; total_attempts = some 1 }) [] [] refl refl
              (Memᴰ.head refl) refl))
          (claims by_schedule unlocked 50000100 50000100 "worker-b"))
        (reports retry_claim (returned report_failed) 50000300 (Memᴰ.head refl)))
      (judges retry_claim (Memᴰ.head refl))

pub first_claim_read : find? (λ a. a.id == 1) claimed.db.attempts ≡ some first_claim
unfolding claim_attempt trigger_job trigger_found create_run create_first_attempt new_run
    new_attempt candidates claim_row claimed_by find? select update count sort_by insert_by
    priority_order
first_claim_read = refl

pub nightly_in_claimed : Memᴰ nightly claimed.db.jobs
unfolding claim_attempt trigger_job trigger_found create_run create_first_attempt new_run
    new_attempt candidates claim_row claimed_by find? select update count sort_by insert_by
    priority_order
nightly_in_claimed = Memᴰ.head refl

pub one_attempt : count (of_run 0) claimed.db.attempts ≡ 1
unfolding claim_attempt trigger_job trigger_found create_run create_first_attempt new_run
    new_attempt candidates claim_row claimed_by find? select update count sort_by insert_by
    priority_order
one_attempt = refl
