-- ===== src/System/Triggered.antt =====
-- A manual trigger (apps/jobs/views.py) writes the run and its attempt in two transactions. This is what
-- becomes of the run if the watchdog closes runs between the two.
use job_schedular.Base.{ℕ, suc, ◌≡◌, some, List, Memᴰ}
use job_schedular.Table.{update, insert}
use job_schedular.Models.{Job, JobRun, JobAttempt, Database, new_run}
use job_schedular.Models.Status.{RunStatus, AttemptStatus, run_is_open}
use job_schedular.Scheduler.Watchdog.{mark_permanently_failed}
use job_schedular.Scheduler.Watchdog.OnePass.{judged}
use job_schedular.Api.Jobs.{create_run, try_first_attempt}
use job_schedular.System.Tables.{Ok}

-- The rows of a trigger whose two transactions have the loop of the watchdog between them.
abbrev interrupted : (ℕ → ℕ) → Job → ℕ → ℕ → ℕ → Database → Database
interrupted clock job now closing later db =
    try_first_attempt clock job db.next_id later
      (mark_permanently_failed closing (create_run clock job now db)).0

-- A run that has failed, with an attempt that is queued.
abbrev pub IsInterrupted : Job → ℕ → ℕ → Database → Type 0
IsInterrupted job run_id closing db =
    ((r : JobRun) × Memᴰ r db.runs
      × (r.id ≡ run_id)
      × (r.job_id ≡ job.id)
      × (r.status ≡ RunStatus.permanently_failed)
      × (r.finished_at ≡ some closing))
    × ((a : JobAttempt) × Memᴰ a db.attempts
        × (a.job_run_id ≡ run_id)
        × (a.job_id ≡ job.id)
        × (a.status ≡ AttemptStatus.queued))

module _ (clock : ℕ → ℕ) (job : Job) (now closing later : ℕ) (db : Database) (ok : Ok db) where
  abbrev run : JobRun
  run = new_run db.next_id job.id now (clock db.next_id)

  abbrev failed_run : JobRun
  failed_run = record run { status = RunStatus.permanently_failed; finished_at = some closing }

  abbrev closed_runs : List JobRun
  closed_runs = update (λ r. run_is_open r.status) (judged closing db.attempts) (insert run db.runs)

  abbrev closed : Database
  closed = record db { runs = closed_runs; next_id = suc db.next_id }
