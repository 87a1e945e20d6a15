-- ===== src/System/Operators.antt =====
-- The endpoints that write runs and attempts keep the tables in order.
use job_schedular.Base.{
  ℕ, refl, Option, none, some, String, arith, ◌==◌, inl, inr, sym, subst, [], ◌∷◌, List, false,
}
use job_schedular.Base.Int.{ℤ}
use job_schedular.Models.{Job, Database}
use job_schedular.Api.Ops.{
  is_stuck_run, is_stuck_attempt, reset_attempt, reset_run, reset_attempts, reset_runs, is_old_run,
  is_old_attempt, delete_old_attempts, delete_old_runs,
}
use job_schedular.Api.Jobs.{delete_found, deactivated}
use job_schedular.System.Tables.{
  TablesOk-update_attempts, TablesOk-update_runs, TablesOk-update_jobs, TablesOk-delete_attempts,
  TablesOk-delete_runs, Ok, TablesOk-mono, TablesOk-insert_job,
}
use job_schedular.Scheduler.Tick.{Calendar}
use job_schedular.Api.Serializer.{JobData, JobError, Checks, serializer_errors}
use job_schedular.Api.Save.{SaveResult, http_400, insert_job, create_job, post_job, patch_found}
use job_schedular.Api.Save.Changed.{IsUpdate, patch_found-IsUpdate}

pub reset_attempts-Ok :
    (message : String) (timeout : ℤ) (now : ℕ) (db : Database)
    → Ok db
    → Ok (reset_attempts message timeout now db)
unfolding reset_attempts reset_attempt
reset_attempts-Ok message timeout now db ok =
    TablesOk-update_attempts ok (is_stuck_attempt timeout now) (reset_attempt message) (λ b. refl)
      (λ b. refl) (λ b. refl) (λ b m s e. refl)

pub reset_runs-Ok : (timeout : ℤ) (now : ℕ) (db : Database) → Ok db → Ok (reset_runs timeout now db)
unfolding reset_runs reset_run
reset_runs-Ok timeout now db ok =
    TablesOk-update_runs ok (is_stuck_run timeout now) reset_run (λ r. refl)

pub delete_old_attempts-Ok :
    (days : ℤ) (now : ℕ) (db : Database) → Ok db → Ok (delete_old_attempts days now db)
unfolding delete_old_attempts
delete_old_attempts-Ok days now db ok = TablesOk-delete_attempts ok (is_old_attempt days now)

pub delete_old_runs-Ok :
    (days : ℤ) (now : ℕ) (db : Database) → Ok db → Ok (delete_old_runs days now db)
unfolding delete_old_runs
delete_old_runs-Ok days now db ok = TablesOk-delete_runs ok (is_old_run days now)

pub delete_found-Ok :
    (now : ℕ) (db : Database) (job : Option Job) → Ok db → Ok (delete_found now db job).0
unfolding delete_found deactivated
delete_found-Ok now db none ok = ok
delete_found-Ok now db (some job) ok =
    TablesOk-update_jobs ok (λ j. j.id == job.id) (λ _. deactivated now job) (λ j e. ground arith)

insert_job-Ok :
    (job : Job) (next : Option (Option ℕ)) (db : Database) → Ok db → Ok (insert_job job next db).0
unfolding insert_job
insert_job-Ok job none db ok = ok
insert_job-Ok job (some next) db ok =
    TablesOk-mono (TablesOk-insert_job ok (record job { next_run_at = next })) (omega arith)

pub post_job-Ok :
    (c : Checks) (cal : Calendar) (refused : List JobError) (checked now created_at : ℕ)
    (d : JobData) (db : Database)
    → Ok db
    → Ok (post_job c cal refused checked now created_at d db).0
unfolding post_job create_job
post_job-Ok c cal refused checked now created_at d db ok =
    by_errors (serializer_errors c false refused none checked db d)
  where
    by_errors :
        (es : List JobError)
        → Ok
            (elim es as (λ _. Database × SaveResult) [
              | [] ↦ create_job cal now created_at d db
              | e ∷ es ↦ (db, http_400 (e ∷ es))
            ]).0
    by_errors [] = insert_job-Ok _ _ db ok
    by_errors (e ∷ es) = ok

-- A row that is overwritten keeps its id.
patched-Ok :
    (cal : Calendar) (now saved_at : ℕ) (d : JobData) (db : Database) (old : Option Job)
    (r : Database × SaveResult)
    → IsUpdate cal now saved_at d db old r
    → Ok db
    → Ok r.0
patched-Ok cal now saved_at d db old r (inl same) ok = subst Ok (sym same.0) ok
patched-Ok cal now saved_at d db old r (inr (job, new, found, same, changed)) ok =
    subst (λ (x : Database × SaveResult). Ok x.0) (sym same)
      (TablesOk-update_jobs ok (λ j. j.id == new.id) (λ _. new) (λ j e. ground arith))

pub patch_found-Ok :
    (c : Checks) (cal : Calendar) (refused : List JobError) (checked now saved_at : ℕ) (d : JobData)
    (db : Database) (old : Option Job)
    → Ok db
    → Ok (patch_found c cal refused checked now saved_at d db old).0
patch_found-Ok c cal refused checked now saved_at d db old ok =
    patched-Ok cal now saved_at d db old _
      (patch_found-IsUpdate c cal refused checked now saved_at d db old) ok
