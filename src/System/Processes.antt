-- ===== src/System/Processes.antt =====
-- The loop that closes runs and the callback of a worker, as sequences of steps.
use job_schedular.Base.{
  Bool-cases, inl, inr, ◌==◌, ℕ, refl, sym, subst, Option, none, some, Memᴰ, List, [], ◌∷◌,
}
use job_schedular.Models.{JobRun, JobAttempt, Database}
use job_schedular.Scheduler.Watchdog.{close_run, close_runs, mark_permanently_failed}
use job_schedular.Models.Status.{RunStatus}
use job_schedular.Worker.Main.{update_run_status, passes_fence, handle_attempt_completion}
use job_schedular.Worker.Executor.{Future}
use job_schedular.Table.{count}
use job_schedular.System.Verdicts.{
  decided, saved, updated_status, closed_status, update_run_status-saved, close_run-saved,
}
use job_schedular.System.Steps.{State, Step, Reach}

-- The state with another database.
abbrev pub on_database : State → Database → State
on_database s db = record s { db = db }

pub Reach-trans : {s t u : State} → Reach s t → Reach t u → Reach s u
Reach-trans r Reach.here = r
Reach-trans r (Reach.next q step) = Reach.next (Reach-trans r q) step

-- A verdict is saved at once.
decides-Reach :
    (s : State) (now run_id : ℕ) (db : Database) (status : Option RunStatus)
    → Reach s (record s { db = db; verdicts = decided run_id status s.verdicts })
    → Reach s (on_database s (saved now run_id status db))
decides-Reach s now run_id db none r = r
decides-Reach s now run_id db (some status) r =
    Reach.next r (Step.saves now (record { run_id = run_id; status = status }) [] s.verdicts refl)

-- Judging an open run and saving the verdict is a turn of the loop that closes runs.
closes_run-Reach :
    (s : State) (now : ℕ) (run : JobRun) (db : Database)
    → Reach s (on_database s db)
    → Reach s (on_database s (close_run now run db).0)
closes_run-Reach s now run db r =
    subst (λ d. Reach s (on_database s d)) (sym (close_run-saved now run db))
      (decides-Reach s now run.id db (closed_status run db) (Reach.next r (Step.judges_open run)))

-- Judging the run of an attempt and saving the verdict settles the run.
pub settles-Reach :
    (s : State) (attempt : JobAttempt) (now : ℕ) (db : Database)
    → Memᴰ attempt s.handed
    → Reach s (on_database s db)
    → Reach s (on_database s (update_run_status now attempt.job_run_id db).0)
settles-Reach s attempt now db m r =
    subst (λ d. Reach s (on_database s d)) (sym (update_run_status-saved now attempt.job_run_id db))
      (decides-Reach s now attempt.job_run_id db (updated_status attempt.job_run_id db)
        (Reach.next r (Step.judges attempt m)))

closes-Reach :
    (s : State) (now : ℕ) (runs : List JobRun) (db : Database)
    → Reach s (on_database s db)
    → Reach s (on_database s (close_runs now runs db).0)
unfolding close_runs
closes-Reach s now [] db r = r
closes-Reach s now (run ∷ runs) db r = closes-Reach s now runs _ (closes_run-Reach s now run db r)

-- The loop that closes runs is a sequence of steps, two for each run that it changes.
pub mark_permanently_failed-Reach :
    (s : State) (now : ℕ) (db : Database)
    → Reach s (on_database s db)
    → Reach s (on_database s (mark_permanently_failed now db).0)
unfolding mark_permanently_failed
mark_permanently_failed-Reach s now db r = closes-Reach s now _ db r

-- The callback of a worker, with nothing in between.
pub callback-Reach :
    (s : State) (attempt : JobAttempt) (future : Future) (now settled : ℕ)
    → Memᴰ attempt s.handed
    → Reach s (on_database s (handle_attempt_completion attempt future now settled s.db).0)
unfolding handle_attempt_completion
callback-Reach s attempt future now settled m =
    elim (Bool-cases (count (passes_fence attempt) s.db.attempts == 0)) [
      | inl e ↦ rw e Reach.here
      | inr e ↦ rw e (
          settles-Reach s attempt settled _ m
            (Reach.next Reach.here (Step.reports attempt future now m)))
    ]
