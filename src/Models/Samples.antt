-- ===== src/Models/Samples.antt =====
-- Sample rows for the tests of all modules: one job, and a clock and locks that never change.
use job_schedular.Base.{ℕ, Bool, false, none, some}
use job_schedular.Models.{Job}
use job_schedular.Models.Status.{ScheduleType, BackoffType, JobStatus}

abbrev pub nightly : Job
nightly = record {
  id = 7;
  name = "nightly";
  description = "a report";
  schedule_type = ScheduleType.cron;
  cron_expression = some "0 2 * * *";
  run_at = none;
  timezone = "UTC";
  priority = "HIGH";
  timeout_seconds = 300;
  handler = "generate_daily_report";
  retry_limit = 3;
  retry_backoff_type = BackoffType.fixed;
  retry_base_delay_seconds = 30;
  status = JobStatus.active;
  next_run_at = some 500;
  last_run_at = none;
  created_at = 0;
  updated_at = 0;
}

abbrev pub clock : ℕ → ℕ
clock n = 100

abbrev pub unlocked : ℕ → Bool
unlocked id = false
