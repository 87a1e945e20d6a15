-- ===== src/System/Bounded/Completion.antt =====
-- The callback of a worker keeps the bound on the attempts of a run.
use job_schedular.Base.{ℕ, arith}
use job_schedular.Models.{JobAttempt, Database}
use job_schedular.Models.Status.{RunStatus}
use job_schedular.Worker.Executor.{Future}
use job_schedular.Worker.Main.{passes_fence, finished_with, finish_run, result_of, reported}
use job_schedular.Scheduler.Watchdog.Bound.{IsBounded}
use job_schedular.System.Bounded.{IsLimited, count-same_run}

pub finish_run-IsBounded :
    (status : RunStatus) (now run_id : ℕ) (db : Database)
    → IsBounded 10 db
    → IsBounded 10 (finish_run status now run_id db)
unfolding finish_run
finish_run-IsBounded status now run_id db b = record { jobs = b.jobs; runs = b.runs }

pub reported-IsBounded :
    (attempt : JobAttempt) (future : Future) (now : ℕ) (db : Database)
    → IsLimited db
    → IsBounded 10 (reported attempt future now db)
unfolding finished_with
reported-IsBounded attempt future now db h = record {
  jobs = h.jobs;
  runs =
      count-same_run db (passes_fence attempt) (finished_with (result_of future) now) h
        (λ a. ground arith);
}
