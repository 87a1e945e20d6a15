-- ===== src/System/Steps.antt =====
-- The step relation of the whole program. A step is taken by the process that its name suggests, with
-- every argument free: the clock, the rows that others hold locked, what the libraries answer. What the
-- code does in several transactions is several steps, so others may come in between. An attempt that a
-- worker was handed stays in `handed`, so its callback may come at any later time, also late or twice.
-- A request that changes, deletes or triggers a job reads its row in a step of its own; the row stays in
-- `read`, and the request goes on at any later time, whatever has been written to the table in between.
-- A trigger whose run is written waits in `started` until it writes the attempt. What a worker or the
-- watchdog has decided on a run from its attempts waits in `verdicts` until it is saved; the run that the
-- watchdog judges may have been read at any time. A transaction of any scheduler's watchdog that has read an
-- expired attempt waits in `expiring`; it counts the attempts of the run, and commits, in steps of their own.
pub mod Safe
use job_schedular.Base.{
  ◌++◌, ℕ, ◌≡◌, Bool, Option, none, some, List, [], ◌∷◌, String, Memᴰ, true, ◌==◌,
}
use job_schedular.Base.Int.{ℤ}
use job_schedular.Table.{count, find?, delete}
use job_schedular.OrderBy.{OrderBy}
use job_schedular.Models.{Job, JobRun, JobAttempt, OutboxEvent, Database}
use job_schedular.Worker.Claim.{EarlierFirst, claim_attempt}
use job_schedular.Worker.Heartbeat.{register_worker, send_heartbeat, mark_worker_dead}
use job_schedular.Worker.Executor.{Future}
use job_schedular.Worker.Main.{of_run, reported, finish_run}
use job_schedular.Scheduler.Tick.{Calendar, PriorityText, tick}
use job_schedular.Scheduler.Publisher.{Delivery, Session, OldestFirst, publish_pending_events}
use job_schedular.Scheduler.Watchdog.{mark_dead_workers}
use job_schedular.Scheduler.Watchdog.Transaction.{Expiring, is_to_expire, commit_expiry}
use job_schedular.Api.Ops.{reset_attempts, reset_runs, delete_old_attempts, delete_old_runs}
use job_schedular.Api.Jobs.{create_run, try_first_attempt, delete_found}
use job_schedular.Api.Serializer.{JobData, JobError, Checks}
use job_schedular.Api.Save.{post_job, patch_found}
use job_schedular.Models.Status.{job_is_active}
use job_schedular.System.Verdicts.{Verdict, decided, updated_status, closed_status}
use job_schedular.System.Started.{Started}

pub record State : Type 0 where
  pub db : Database
  pub handed : List JobAttempt
  pub read : List Job
  pub started : List Started
  pub verdicts : List Verdict
  pub expiring : List Expiring

-- What a claim returns goes to the worker's executor.
abbrev pub hand_over : Option JobAttempt → List JobAttempt → List JobAttempt
hand_over none handed = handed
hand_over (some a) handed = a ∷ handed

pub data Step (s : State) : State → Type 0 where
  ticks :
      (c : Calendar) (o : OrderBy PriorityText) (clock : ℕ → ℕ) (locked : ℕ → Bool) (now : ℕ)
      → Step s (record s { db = (tick c o clock locked now s.db).0 })
  publishes :
      (o : OrderBy OldestFirst) (env : OutboxEvent → Delivery) (session : Session)
      (locked : ℕ → Bool) (now : ℕ)
      → Step s (record s { db = (publish_pending_events o env session locked now s.db).0 })
  looks :
      (attempt_id now : ℕ) (row : JobAttempt)
      → find? (λ a. a.id == attempt_id) s.db.attempts ≡ some row
      → is_to_expire now row ≡ true
      → Step s (record s { expiring = record { row = row; total_attempts = none } ∷ s.expiring })
  counts :
      (e : Expiring) (before after : List Expiring)
      → s.expiring ≡ before ++ e ∷ after
      → Step s (record s {
        expiring =
            before
            ++ record e { total_attempts = some (count (of_run e.row.job_run_id) s.db.attempts) }
              ∷ after;
      })
  expires :
      (clock : ℕ → ℕ) (now total : ℕ) (job : Job) (e : Expiring) (before after : List Expiring)
      → s.expiring ≡ before ++ e ∷ after
      → e.total_attempts ≡ some total
      → Memᴰ job s.read
      → job.id ≡ e.row.job_id
      → Step s (record s {
        db = commit_expiry clock e.row total job now s.db;
        expiring = before ++ after;
      })
  gives_up :
      (e : Expiring) (before after : List Expiring)
      → s.expiring ≡ before ++ e ∷ after
      → Step s (record s { expiring = before ++ after })
  judges_open :
      (run : JobRun)
      → Step s (record s { verdicts = decided run.id (closed_status run s.db) s.verdicts })
  saves :
      (now : ℕ) (verdict : Verdict) (before after : List Verdict)
      → s.verdicts ≡ before ++ verdict ∷ after
      → Step s (record s {
        db = finish_run verdict.status now verdict.run_id s.db;
        verdicts = before ++ after;
      })
  sweeps : (now : ℕ) → Step s (record s { db = (mark_dead_workers now s.db).0 })
  claims :
      (o : OrderBy EarlierFirst) (locked : ℕ → Bool) (queried now : ℕ) (worker_id : String)
      → Step s (record s {
        db = (claim_attempt o locked queried now worker_id s.db).0;
        handed = hand_over (claim_attempt o locked queried now worker_id s.db).1 s.handed;
      })
  registers :
      (worker_id hostname : String) (now created_at : ℕ)
      → Step s (record s { db = (register_worker worker_id hostname now created_at s.db).0 })
  beats :
      (worker_id : String) (now : ℕ)
      → Step s (record s { db = (send_heartbeat worker_id now s.db).0 })
  stops : (worker_id : String) → Step s (record s { db = mark_worker_dead worker_id s.db })
  reports :
      (attempt : JobAttempt) (future : Future) (now : ℕ)
      → Memᴰ attempt s.handed
      → Step s (record s { db = reported attempt future now s.db })
  judges :
      (attempt : JobAttempt)
      → Memᴰ attempt s.handed
      → Step s (record s {
        verdicts = decided attempt.job_run_id (updated_status attempt.job_run_id s.db) s.verdicts;
      })
  triggers :
      (clock : ℕ → ℕ) (job : Job) (now : ℕ)
      → Memᴰ job s.read
      → job_is_active job.status ≡ true
      → Step s (record s {
        db = create_run clock job now s.db;
        started = record { job = job; run_id = s.db.next_id } ∷ s.started;
      })
  queues_first :
      (clock : ℕ → ℕ) (t : Started) (now : ℕ)
      → Memᴰ t s.started
      → Step s (record s {
        db = try_first_attempt clock t.job t.run_id now s.db;
        started = delete (λ u. u.run_id == t.run_id) s.started;
      })
  posts_job :
      (c : Checks) (cal : Calendar) (refused : List JobError) (checked now created_at : ℕ)
      (d : JobData)
      → Step s (record s { db = (post_job c cal refused checked now created_at d s.db).0 })
  reads_job : (job : Job) → Memᴰ job s.db.jobs → Step s (record s { read = job ∷ s.read })
  patches_job :
      (c : Checks) (cal : Calendar) (refused : List JobError) (checked now saved_at : ℕ)
      (d : JobData) (job : Job)
      → Memᴰ job s.read
      → Step s
          (record s { db = (patch_found c cal refused checked now saved_at d s.db (some job)).0 })
  deletes_job :
      (now : ℕ) (job : Job)
      → Memᴰ job s.read
      → Step s (record s { db = (delete_found now s.db (some job)).0 })
  resets :
      (message : String) (timeout : ℤ) (now : ℕ)
      → Step s (record s { db = reset_attempts message timeout now s.db })
  resets_runs : (timeout : ℤ) (now : ℕ) → Step s (record s { db = reset_runs timeout now s.db })
  cleans : (days : ℤ) (now : ℕ) → Step s (record s { db = delete_old_attempts days now s.db })
  cleans_runs : (days : ℤ) (now : ℕ) → Step s (record s { db = delete_old_runs days now s.db })

pub data Reach (s : State) : State → Type 0 where
  here : Reach s s
  next : {t u : State} → Reach s t → Step t u → Reach s u

-- The database before the first run: no row but those of jobs.
abbrev pub start : List Job → State
start jobs = record {
  db = record { jobs = jobs; runs = []; attempts = []; workers = []; events = []; next_id = 0 };
  handed = [];
  read = [];
  started = [];
  verdicts = [];
  expiring = [];
}
