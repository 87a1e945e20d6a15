-- ===== src/Scheduler/Watchdog/Bound.antt =====
-- How many attempts a run gets.
use job_schedular.Base.{ℕ, ◌≤◌, All}
use job_schedular.Table.{count}
use job_schedular.Models.{Database}
use job_schedular.Worker.Main.{of_run}

module _ (limit : ℕ) where
  -- No job allows more than `limit` attempts, and no run has more.
  pub record IsBounded (db : Database) : Type 0 where
    pub jobs : All (λ j. j.retry_limit ≤ limit) db.jobs
    pub runs : (i : ℕ) → count (of_run i) db.attempts ≤ limit
