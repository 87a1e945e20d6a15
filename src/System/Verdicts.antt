-- ===== src/System/Verdicts.antt =====
-- The readings of `_update_run_status` (worker/main.py) and of a turn of the loop of
-- `_mark_permanently_failed` (scheduler/watchdog.py) apart from the save that follows them: the code reads the
-- attempts of a run, decides on its status, and saves it in a statement of its own.
use job_schedular.Base.{ℕ, ◌≡◌, not, Option, none, some, List, ◌∷◌, arith, ◌==◌, if◌then◌else◌}
use job_schedular.Table.{select, exists, find?}
use job_schedular.Models.{JobRun, Database}
use job_schedular.Models.Status.{
  RunStatus, run_is_success, run_is_permanently_failed, attempt_is_success, attempt_is_active,
}
use job_schedular.Worker.Main.{of_run, finish_run, settle_run, update_run_status}
use job_schedular.Scheduler.Watchdog.{is_over, close_run}

-- A status that was decided on and is not saved yet.
pub record Verdict : Type 0 where
  pub run_id : ℕ
  pub status : RunStatus

-- What `_update_run_status` decides for the run with this id.
unfoldable pub settled_status : ℕ → Database → Option RunStatus
settled_status run_id db =
    let attempts = select (of_run run_id) db.attempts in
    if exists (λ a. attempt_is_success a.status) attempts
    then some RunStatus.success
    else if not (exists (λ a. attempt_is_active a.status) attempts)
    then some RunStatus.permanently_failed
    else none

unfoldable pub updated_status : ℕ → Database → Option RunStatus
updated_status run_id db = elim (find? (λ r. r.id == run_id) db.runs) [
  | none ↦ none
  | some run ↦ settled_status run_id db
]

-- What the watchdog decides for the run, as its query read it.
unfoldable pub closed_status : JobRun → Database → Option RunStatus
closed_status run db =
    let attempts = select (of_run run.id) db.attempts in
    if not (is_over attempts)
    then none
    else if exists (λ a. attempt_is_success a.status) attempts
    then (if not (run_is_success run.status) then some RunStatus.success else none)
    else if not (run_is_permanently_failed run.status)
    then some RunStatus.permanently_failed
    else none

abbrev pub decided : ℕ → Option RunStatus → List Verdict → List Verdict
decided run_id none verdicts = verdicts
decided run_id (some status) verdicts = record { run_id = run_id; status = status } ∷ verdicts

abbrev pub saved : ℕ → ℕ → Option RunStatus → Database → Database
saved now run_id none db = db
saved now run_id (some status) db = finish_run status now run_id db

-- With nothing in between, the reading and the save are the operation.
settle_run-saved :
    (now run_id : ℕ) (db : Database)
    → settle_run now run_id db ≡ saved now run_id (settled_status run_id db) db
unfolding settle_run settled_status
settle_run-saved now run_id db = ground arith

pub update_run_status-saved :
    (now run_id : ℕ) (db : Database)
    → (update_run_status now run_id db).0 ≡ saved now run_id (updated_status run_id db) db
unfolding update_run_status updated_status
update_run_status-saved now run_id db = ground (arith, settle_run-saved now run_id db)

pub close_run-saved :
    (now : ℕ) (run : JobRun) (db : Database)
    → (close_run now run db).0 ≡ saved now run.id (closed_status run db) db
unfolding close_run closed_status
close_run-saved now run db = ground arith
