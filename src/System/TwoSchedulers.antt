-- ===== src/System/TwoSchedulers.antt =====
-- What two schedulers (README allows several) make of one expired attempt: `_handle_expired_attempt`
-- (scheduler/watchdog.py) reads the row without a lock and writes by its id alone.
use job_schedular.Base.{ℕ, ◌+◌, ◌<◌, ◌≡◌, ◌≢◌, true, List, ◌==◌, Memᴰ}
use job_schedular.Table.{exists}
use job_schedular.Models.{Job, JobAttempt, Database, new_attempt}
use job_schedular.Models.Status.{AttemptStatus}
use job_schedular.Scheduler.Watchdog.Transaction.{timed_out_in, retried_in}

-- A retry of the run: QUEUED, and with the number after those that were counted.
abbrev pub IsRetry : ℕ → ℕ → List JobAttempt → JobAttempt → Type 0
IsRetry run_id total xs b =
    Memᴰ b xs
    × (b.job_run_id ≡ run_id)
    × (b.status ≡ AttemptStatus.queued)
    × (b.attempt_number ≡ total + 1)

-- Two retries of one run, with one number.
abbrev pub IsRetriedTwice : ℕ → ℕ → List JobAttempt → Type 0
IsRetriedTwice run_id total xs =
    (b c : JobAttempt) × (b.id ≢ c.id) × IsRetry run_id total xs b × IsRetry run_id total xs c

module _ (clock : ℕ → ℕ) (row : JobAttempt) (total : ℕ) (job : Job) (db : Database)
    (few : total < job.retry_limit) (run : exists (λ r. r.id == row.job_run_id) db.runs ≡ true)
    (known : exists (λ j. j.id == job.id) db.jobs ≡ true) (below : row.id < db.next_id)
    (now again : ℕ) where
  -- The foreign keys hold and a retry is left.
  abbrev once : Database
  once = retried_in clock row total job now (timed_out_in row now db)

  abbrev twice : Database
  twice = retried_in clock row total job again (timed_out_in row again once)

  abbrev first_retry : JobAttempt
  first_retry =
      new_attempt db.next_id row.job_run_id job.id (total + 1) job.priority now (clock db.next_id)
