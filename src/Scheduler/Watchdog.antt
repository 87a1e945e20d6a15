-- ===== src/Scheduler/Watchdog.antt =====
-- scheduler/watchdog.py: expired leases, runs that are over, dead workers. `clock n` is the reading
-- of the clock at the creation of the row with id `n`, for its `created_at`.
pub mod Closing
pub mod Pass
pub mod Bound
pub mod OnePass
pub mod Transaction
use job_schedular.Base.{
  ℕ, suc, ◌+◌, ◌*◌, ◌-◌, Bool, true, false, not, ◌&&◌, Option, none, some, List, [], ◌∷◌, String,
  ltb, leb, ◌==◌, if◌then◌else◌, length,
}
use job_schedular.Table.{select, count, exists, find?, update, insert}
use job_schedular.Models.{Job, JobRun, JobAttempt, Worker, Database, second, new_attempt}
use job_schedular.Models.Status.{
  RunStatus, AttemptStatus, WorkerStatus, run_is_open, run_is_success, run_is_permanently_failed,
  attempt_is_success, attempt_is_active, attempt_is_running, worker_is_active,
}
use job_schedular.Worker.Heartbeat.{find_expired_leases}
use job_schedular.Worker.Main.{of_run, finish_run}

abbrev pub heartbeat_timeout_seconds : ℕ
heartbeat_timeout_seconds = 60

-- What `_handle_expired_attempt` returns, or the exception that it raises: the row is gone, or it
-- compares a NULL lease.
pub data Expiry : Type 0 where
  rescheduled not_rescheduled does_not_exist type_error : Expiry

unfoldable pub timed_out_at : ℕ → JobAttempt → JobAttempt
timed_out_at now a = record a {
  status = AttemptStatus.timed_out;
  finished_at = some now;
  error_message = some "Lease expired — worker likely crashed";
}

-- The retry, if `job.retry_limit` allows one; `db` has the expired attempt timed out.
unfoldable pub retry_attempt : (ℕ → ℕ) → JobAttempt → Job → ℕ → Database → Database × Expiry
retry_attempt clock attempt job now db =
    let total_attempts = count (of_run attempt.job_run_id) db.attempts in
    let id = db.next_id in
    let retry =
      new_attempt id attempt.job_run_id job.id (total_attempts + 1) job.priority now (clock id) in
    if ltb total_attempts job.retry_limit
    then (record db { attempts = insert retry db.attempts; next_id = suc id }, rescheduled)
    else (db, not_rescheduled)

-- The row is timed out, and retried for its job, if the job is there.
unfoldable pub expire_for : (ℕ → ℕ) → JobAttempt → ℕ → Database → Option Job → Database × Expiry
expire_for clock attempt now db none = (db, does_not_exist)
expire_for clock attempt now db (some job) =
    retry_attempt clock attempt job now
      (record db { attempts = update (λ a. a.id == attempt.id) (timed_out_at now) db.attempts })

-- The check of the lease: Python raises TypeError where it compares None.
unfoldable pub expire_lease : (ℕ → ℕ) → JobAttempt → ℕ → Database → Option ℕ → Database × Expiry
expire_lease clock attempt now db none = (db, type_error)
expire_lease clock attempt now db (some lease) =
    if leb now lease
    then (db, not_rescheduled)
    else expire_for clock attempt now db (find? (λ j. j.id == attempt.job_id) db.jobs)

-- The body of the transaction, on the row as `refresh_from_db` reads it.
unfoldable pub expire_row : (ℕ → ℕ) → JobAttempt → ℕ → Database → Database × Expiry
expire_row clock attempt now db =
    if not (attempt_is_running attempt.status)
    then (db, not_rescheduled)
    else expire_lease clock attempt now db attempt.lease_expires_at

-- The row that `refresh_from_db` finds, or its DoesNotExist.
unfoldable pub expire_found : (ℕ → ℕ) → ℕ → Database → Option JobAttempt → Database × Expiry
expire_found clock now db none = (db, does_not_exist)
expire_found clock now db (some row) = expire_row clock row now db

-- `attempt` is the row as the watchdog's query read it, maybe long ago. An exception rolls the
-- transaction back.
unfoldable pub handle_expired_attempt : (ℕ → ℕ) → JobAttempt → ℕ → Database → Database × Expiry
handle_expired_attempt clock attempt now db =
    expire_found clock now db (find? (λ a. a.id == attempt.id) db.attempts)

abbrev pub is_over : List JobAttempt → Bool
is_over attempts = not (exists (λ a. attempt_is_active a.status) attempts)

-- One turn of the loop of `_mark_permanently_failed`, on the run as the query read it.
unfoldable pub close_run : ℕ → JobRun → Database → Database × ℕ
close_run now run db =
    let attempts = select (of_run run.id) db.attempts in
    if not (is_over attempts)
    then (db, 0)
    else if exists (λ a. attempt_is_success a.status) attempts
    then (if not (run_is_success run.status)
        then (finish_run RunStatus.success now run.id db, 1)
        else (db, 0))
    else if not (run_is_permanently_failed run.status)
    then (finish_run RunStatus.permanently_failed now run.id db, 1)
    else (db, 0)

unfoldable pub close_runs : ℕ → List JobRun → Database → Database × ℕ
close_runs now [] db = (db, 0)
close_runs now (run ∷ runs) db =
    let (db', marked) = close_run now run db in
    let (db'', rest) = close_runs now runs db' in (db'', marked + rest)

unfoldable pub mark_permanently_failed : ℕ → Database → Database × ℕ
mark_permanently_failed now db = close_runs now (select (λ r. run_is_open r.status) db.runs) db

-- No heartbeat for 60 seconds; `-` stops at 0, and then the cutoff is before every timestamp.
abbrev pub is_silent : ℕ → Worker → Bool
is_silent now w =
    worker_is_active w.status && ltb w.last_heartbeat_at (now - heartbeat_timeout_seconds * second)

unfoldable pub mark_dead_workers : ℕ → Database → Database × ℕ
mark_dead_workers now db = (
  record db { workers = update (is_silent now) dead db.workers },
  count (is_silent now) db.workers,
)
  where
    dead : Worker → Worker
    dead w = record w { status = WorkerStatus.dead }

pub record WatchdogResult : Type 0 where
  pub expired_leases : ℕ
  pub rescheduled : ℕ
  pub permanently_failed : ℕ
  pub dead_workers : ℕ

-- The loop over the expired attempts, with the number rescheduled; `none` if one of them raises,
-- which leaves the transactions before it committed.
unfoldable pub handle_expired : (ℕ → ℕ) → List JobAttempt → ℕ → ℕ → Database → Database × Option ℕ
handle_expired clock [] now n db = (db, some n)
handle_expired clock (attempt ∷ rest) now n db =
    let (db', outcome) = handle_expired_attempt clock attempt now db in
    elim outcome [
      | rescheduled ↦ handle_expired clock rest now (suc n) db'
      | not_rescheduled ↦ handle_expired clock rest now n db'
      | does_not_exist ↦ (db', none)
      | type_error ↦ (db', none)
    ]

unfoldable pub run_watchdog : (ℕ → ℕ) → ℕ → Database → Database × Option WatchdogResult
run_watchdog clock now db =
    let expired = find_expired_leases now db in
    let (handled, outcome) = handle_expired clock expired now 0 db in
    let (closed, failed) = mark_permanently_failed now handled in
    let (swept, dead) = mark_dead_workers now closed in
    elim outcome [
      | none ↦ (handled, none)
      | some n ↦ (
        swept,
        some (record {
          expired_leases = length expired;
          rescheduled = n;
          permanently_failed = failed;
          dead_workers = dead;
        }),
      )
    ]
