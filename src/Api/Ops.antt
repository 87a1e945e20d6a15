-- ===== src/Api/Ops.antt =====
-- The ops endpoints of apps/executions/views.py, and the management commands of the same name,
-- which do the same work.
use job_schedular.Base.{
  ℕ, suc, ◌+◌, ◌*◌, Bool, ◌&&◌, none, some, List, String, ltb, ◌==◌, if◌then◌else◌,
}
use job_schedular.Base.Int.{ℤ, pos, negsuc}
use job_schedular.Table.{count, exists, update, delete}
use job_schedular.Models.{JobRun, JobAttempt, Database, second}
use job_schedular.Models.Status.{RunStatus, AttemptStatus, run_is_open, attempt_is_active}

abbrev pub minute : ℕ
minute = 60 * second

abbrev pub day : ℕ
day = 24 * (60 * minute)

-- `created_at < now - n * unit`, for a number `n` that may be negative.
unfoldable pub created_before : ℕ → ℤ → ℕ → ℕ → Bool
created_before unit (pos n) now created_at = ltb (created_at + n * unit) now
created_before unit (negsuc n) now created_at = ltb created_at (now + suc n * unit)

pub data OpsStatus : Type 0 where
  dry_run executed : OpsStatus

-- The response: whether the rows were written, and how many runs and attempts there are to write.
pub record OpsResponse : Type 0 where
  pub status : OpsStatus
  pub runs : ℕ
  pub attempts : ℕ

abbrev pub is_stuck_run : ℤ → ℕ → JobRun → Bool
is_stuck_run timeout now r = run_is_open r.status && created_before minute timeout now r.created_at

abbrev pub is_stuck_attempt : ℤ → ℕ → JobAttempt → Bool
is_stuck_attempt timeout now a =
    attempt_is_active a.status && created_before minute timeout now a.created_at

unfoldable pub reset_attempt : String → JobAttempt → JobAttempt
reset_attempt message a = record a {
  status = AttemptStatus.queued;
  worker_id = none;
  fencing_token = 0;
  lease_expires_at = none;
  started_at = none;
  error_message = some message;
}

unfoldable pub reset_run : JobRun → JobRun
reset_run r = record r { status = RunStatus.queued; started_at = none }

-- The two updates, each a statement of its own.
unfoldable pub reset_attempts : String → ℤ → ℕ → Database → Database
reset_attempts message timeout now db = record db {
  attempts = update (is_stuck_attempt timeout now) (reset_attempt message) db.attempts;
}

unfoldable pub reset_runs : ℤ → ℕ → Database → Database
reset_runs timeout now db = record db { runs = update (is_stuck_run timeout now) reset_run db.runs }

unfoldable pub reset_stuck_runs : String → ℤ → Bool → ℕ → Database → Database × OpsResponse
reset_stuck_runs message timeout execute now db =
    let runs = count (is_stuck_run timeout now) db.runs in
    let attempts = count (is_stuck_attempt timeout now) db.attempts in
    if execute
    then (
      reset_runs timeout now (reset_attempts message timeout now db),
      record { status = executed; runs = runs; attempts = attempts },
    )
    else (db, record { status = dry_run; runs = runs; attempts = attempts })

-- ResetStuckRunsView.post.
unfoldable pub reset_stuck_view : ℤ → Bool → ℕ → Database → Database × OpsResponse
reset_stuck_view = reset_stuck_runs "Reset by ops endpoint"

-- The command reset_stuck_runs.
unfoldable pub reset_stuck_command : ℤ → Bool → ℕ → Database → Database × OpsResponse
reset_stuck_command = reset_stuck_runs "Reset by cleanup command"

abbrev pub is_old_run : ℤ → ℕ → JobRun → Bool
is_old_run days now r = created_before day days now r.created_at

abbrev pub is_old_attempt : ℤ → ℕ → JobAttempt → Bool
is_old_attempt days now a = created_before day days now a.created_at

-- `on_delete=CASCADE`: an attempt goes with its run.
abbrev pub has_run_in : (JobRun → Bool) → List JobRun → JobAttempt → Bool
has_run_in p runs a = exists (λ r. r.id == a.job_run_id && p r) runs

-- The two deletions, each a transaction of its own.
unfoldable pub delete_old_attempts : ℤ → ℕ → Database → Database
delete_old_attempts days now db = record db {
  attempts = delete (is_old_attempt days now) db.attempts;
}

unfoldable pub delete_old_runs : ℤ → ℕ → Database → Database
delete_old_runs days now db = record db {
  attempts = delete (has_run_in (is_old_run days now) db.runs) db.attempts;
  runs = delete (is_old_run days now) db.runs;
}

-- CleanupOldRunsView.post.
unfoldable pub cleanup_old_runs : ℤ → Bool → ℕ → Database → Database × OpsResponse
cleanup_old_runs days execute now db =
    let runs = count (is_old_run days now) db.runs in
    let attempts = count (is_old_attempt days now) db.attempts in
    if execute
    then (
      delete_old_runs days now (delete_old_attempts days now db),
      record { status = executed; runs = runs; attempts = attempts },
    )
    else (db, record { status = dry_run; runs = runs; attempts = attempts })

-- The command cleanup_old_runs.
unfoldable pub cleanup_command : ℤ → Bool → ℕ → Database → Database × OpsResponse
cleanup_command = cleanup_old_runs
