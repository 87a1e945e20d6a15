-- ===== src/Api/Save/Unchecked.antt =====
-- What a partial change of a job is not checked for.
use job_schedular.Base.{ℕ, ◌≤◌, ◌≡◌, false, none, some, [], arith, ◌==◌}
use job_schedular.Table.{find?}
use job_schedular.Models.{Job, Database}
use job_schedular.Models.Status.{ScheduleType}
use job_schedular.Scheduler.Tick.{Calendar}
use job_schedular.Api.Serializer.{
  JobData, Checks, field_errors, validate_retry_policy, validate, serializer_errors,
}
use job_schedular.Api.Save.{
  http_200, exception, is_empty_policy, policy_of, with_policy, serializer_next_run,
  schedule_changed, with_fields, save_job, update_with, update_job, patch_found, patch_job,
}

abbrev pub no_fields : JobData
no_fields = record {
  name = none;
  description = none;
  schedule_type = none;
  cron_expression = none;
  run_at = none;
  timezone = none;
  priority = none;
  timeout_seconds = none;
  handler = none;
  retry_policy = none;
}

-- The request `{"run_at": t}`.
abbrev pub only_run_at : ℕ → JobData
only_run_at t = record no_fields { run_at = some (some t) }

-- The request `{"retry_policy": {"max_attempts": n}}`.
abbrev pub only_max_attempts : ℕ → JobData
only_max_attempts n = record no_fields {
  retry_policy = some (record { max_attempts = some n; backoff = none; base_delay_seconds = none });
}

-- The time of a ONE_TIME job can be changed to any other, also to one in the past: the request with
-- `run_at` alone is accepted, and the job is due at that time.
pub patch_run_at_unchecked :
    (c : Checks) (cal : Calendar) (job_id checked now saved_at r t : ℕ) (db : Database) (job : Job)
    → find? (λ j. j.id == job_id) db.jobs ≡ some job
    → job.schedule_type ≡ ScheduleType.one_time
    → job.run_at ≡ some r
    → (r == t) ≡ false
    → (patch_job c cal [] job_id checked now saved_at (only_run_at t) db).1
      ≡ http_200 (record job { run_at = some t; next_run_at = some t; updated_at = saved_at })
unfolding patch_job patch_found serializer_errors field_errors validate update_job update_with
    policy_of with_policy with_fields schedule_changed serializer_next_run save_job
patch_run_at_unchecked c cal job_id checked now saved_at r t db job found kind at other =
    rw (found, patch_found) (ground (arith, kind, at, other))

-- A change of the number of attempts alone is never made: its answer is an exception, and nothing is
-- written.
pub patch_max_attempts-exception :
    (c : Checks) (cal : Calendar) (job_id checked now saved_at n : ℕ) (db : Database) (job : Job)
    → find? (λ j. j.id == job_id) db.jobs ≡ some job
    → 1 ≤ n
    → n ≤ 10
    → patch_job c cal [] job_id checked now saved_at (only_max_attempts n) db ≡ (db, exception)
unfolding patch_job patch_found serializer_errors field_errors validate validate_retry_policy
    update_job update_with policy_of is_empty_policy
patch_max_attempts-exception c cal job_id checked now saved_at n db job found low high =
    rw (found, patch_found) (ground (arith, low, high))
