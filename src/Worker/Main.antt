-- ===== src/Worker/Main.antt =====
-- worker/main.py: what happens when a handler ends, and the polling loop.
use job_schedular.Base.{String, ℕ, ◌*◌, Bool, false, not, none, some, ◌==◌, ◌&&◌, if◌then◌else◌}
use job_schedular.Table.{select, count, exists, find?, update}
use job_schedular.Models.{Job, JobRun, JobAttempt, Database}
use job_schedular.Models.Status.{RunStatus, AttemptStatus, attempt_is_success, attempt_is_active}
use job_schedular.Worker.Executor.{ExecutionResult, Future, returned, raised, Registry, submit_job}

-- One millisecond, in microseconds.
abbrev pub millisecond : ℕ
millisecond = 1000

-- How a callback ends: the row was written, the fencing check failed, or JobRun.DoesNotExist.
pub data Completion : Type 0 where
  completed stale does_not_exist : Completion

abbrev pub of_run : ℕ → JobAttempt → Bool
of_run run_id a = a.job_run_id == run_id

-- `run.save(update_fields=["status", "finished_at"])`.
unfoldable pub finish_run : RunStatus → ℕ → ℕ → Database → Database
finish_run status now run_id db = record db { runs = update (λ r. r.id == run_id) finished db.runs }
  where
    finished : JobRun → JobRun
    finished r = record r { status = status; finished_at = some now }

-- `_update_run_status`, after its `JobRun.objects.get`.
unfoldable pub settle_run : ℕ → ℕ → Database → Database
settle_run now run_id db =
    let attempts = select (of_run run_id) db.attempts in
    if exists (λ a. attempt_is_success a.status) attempts
    then finish_run RunStatus.success now run_id db
    else if not (exists (λ a. attempt_is_active a.status) attempts)
    then finish_run RunStatus.permanently_failed now run_id db
    else db

unfoldable pub update_run_status : ℕ → ℕ → Database → Database × Completion
update_run_status now run_id db = elim (find? (λ r. r.id == run_id) db.runs) [
  | none ↦ (db, does_not_exist)
  | some run ↦ (settle_run now run_id db, completed)
]

-- `future.result()`, with the handler of its exception.
unfoldable pub result_of : Future → ExecutionResult
result_of (returned result) = result
result_of (raised message) = record {
  success = false;
  duration_ms = 0;
  output = "";
  error = some message;
}

-- `filter(id=attempt.id, fencing_token=attempt.fencing_token)`.
abbrev pub passes_fence : JobAttempt → JobAttempt → Bool
passes_fence attempt a = a.id == attempt.id && a.fencing_token == attempt.fencing_token

unfoldable pub finished_with : ExecutionResult → ℕ → JobAttempt → JobAttempt
finished_with result now a =
    let duration = some (result.duration_ms * millisecond) in
    if result.success
    then record a { status = AttemptStatus.success; finished_at = some now; duration = duration }
    else record a {
      status = AttemptStatus.failed;
      finished_at = some now;
      duration = duration;
      error_message = result.error;
    }

-- The guarded update of the row of the attempt.
abbrev pub reported : JobAttempt → Future → ℕ → Database → Database
reported attempt future now db = record db {
  attempts = update (passes_fence attempt) (finished_with (result_of future) now) db.attempts;
}

-- `attempt` is the row as the worker claimed it; `settled` is the later reading of the clock.
unfoldable pub handle_attempt_completion :
    JobAttempt → Future → ℕ → ℕ → Database → Database × Completion
handle_attempt_completion attempt future now settled db =
    let after = reported attempt future now db in
    if count (passes_fence attempt) db.attempts == 0
    then (db, stale)
    else update_run_status settled attempt.job_run_id after

-- What becomes of an attempt that was claimed, with the job that it was read with: it is submitted,
-- and the callback takes the future when it is done.
unfoldable pub run_claimed :
    (ExecutionResult → Future)
    → Registry
    → String
    → JobAttempt
    → Job
    → ℕ
    → ℕ
    → ℕ
    → Database
    → Database × Completion
run_claimed pool registry missing attempt job elapsed now settled db =
    let future =
      submit_job pool registry missing job.handler attempt.id job.timeout_seconds elapsed in
    handle_attempt_completion attempt future now settled db
