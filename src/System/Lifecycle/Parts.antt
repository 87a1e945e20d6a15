-- ===== src/System/Lifecycle/Parts.antt =====
-- The operations that write attempts move them as the machine allows.
use job_schedular.Base.{
  ℕ, ◌≡◌, refl, inl, inr, Bool, true, List, [], ◌∷◌, String, arith, Bool-cases, Option-cases,
  All-of_Memᴰ,
}
use job_schedular.Base.Int.{ℤ}
use job_schedular.Table.{exists}
use job_schedular.OrderBy.{OrderBy}
use job_schedular.Models.{Job, JobAttempt, Database, new_attempt}
use job_schedular.Models.Status.{RunStatus}
use job_schedular.Worker.Claim.{EarlierFirst, is_still_queued, claimed_by, claim_attempt}
use job_schedular.Worker.Claim.Laws.{claim_attempt-ClaimsBest}
use job_schedular.Worker.Heartbeat.{is_extendable, extended_to, send_heartbeat}
use job_schedular.Worker.Executor.{Future}
use job_schedular.Worker.Main.{passes_fence, finished_with, finish_run, result_of, reported}
use job_schedular.Scheduler.Tick.{
  Calendar, PriorityText, tick, due_jobs, create_run_for_job, reschedule_job, schedule_job,
  schedule_jobs, calculate_next_run, is_run_of, scheduled_time,
}
use job_schedular.Api.Ops.{
  reset_attempts, reset_runs, is_stuck_attempt, reset_attempt, delete_old_attempts, delete_old_runs,
}
use job_schedular.System.Attempts.{is_sound}
use job_schedular.System.Tables.{Ok}
use job_schedular.System.Lifecycle.{
  Evolves, Evolves-update, Evolves-insert, Evolves-after, Evolves-delete, Evolves-same,
}

module _ (requeues : Bool) (next : ℕ) (xs : List JobAttempt) where
  create_run-Evolves :
      (clock : ℕ → ℕ) (job : Job) (now : ℕ) (db : Database)
      → Evolves requeues next xs db
      → Evolves requeues next xs (create_run_for_job clock job now db).0
  unfolding create_run_for_job new_attempt
  create_run-Evolves clock job now db v =
      elim (Bool-cases (exists (is_run_of job.id (scheduled_time job now)) db.runs)) [
        | inl e ↦ rw e v
        | inr e ↦ rw e (
            Evolves-insert requeues next xs db _ _ refl (omega (arith, v.moves.later)) refl
              (omega (arith, v.moves.later)) refl v)
      ]

  schedule_job-Evolves :
      (c : Calendar) (clock : ℕ → ℕ) (now : ℕ) (job : Job) (db : Database)
      → Evolves requeues next xs db
      → Evolves requeues next xs (schedule_job c clock now job db).0
  unfolding schedule_job reschedule_job
  schedule_job-Evolves c clock now job db v = elim (Option-cases (calculate_next_run c job now)) [
    | inl e ↦ rw (e, schedule_job) v
    | inr (t, e) ↦
        let w = create_run-Evolves clock job now db v in
        rw (e, schedule_job) (Evolves-after requeues next xs _ _ refl (omega arith) w)
  ]

  schedule_jobs-Evolves :
      (c : Calendar) (clock : ℕ → ℕ) (now : ℕ) (jobs : List Job) (db : Database)
      → Evolves requeues next xs db
      → Evolves requeues next xs (schedule_jobs c clock now jobs db).0
  unfolding schedule_jobs
  schedule_jobs-Evolves c clock now [] db v = v
  schedule_jobs-Evolves c clock now (job ∷ jobs) db v =
      schedule_jobs-Evolves c clock now jobs _ (schedule_job-Evolves c clock now job db v)

  pub finish_run-Evolves :
      (status : RunStatus) (now run_id : ℕ) (db : Database)
      → Evolves requeues next xs db
      → Evolves requeues next xs (finish_run status now run_id db)
  unfolding finish_run
  finish_run-Evolves status now run_id db v =
      Evolves-after requeues next xs db _ refl (omega arith) v

module _ (requeues : Bool) (db : Database) where
  abbrev pub Grows : Database → Type 0
  Grows after = Evolves requeues db.next_id db.attempts after

  pub same : Grows db
  same = Evolves-same requeues db db refl (omega arith)

  pub tick-Evolves :
      (c : Calendar) (o : OrderBy PriorityText) (clock : ℕ → ℕ) (locked : ℕ → Bool) (now : ℕ)
      → Grows (tick c o clock locked now db).0
  unfolding tick
  tick-Evolves c o clock locked now =
      schedule_jobs-Evolves requeues db.next_id db.attempts c clock now (due_jobs o locked now db)
        db same

  pub delete_old_attempts-Evolves : (days : ℤ) (now : ℕ) → Grows (delete_old_attempts days now db)
  unfolding delete_old_attempts
  delete_old_attempts-Evolves days now =
      Evolves-delete requeues db.next_id db.attempts _ db _ refl (omega arith) same

  pub delete_old_runs-Evolves : (days : ℤ) (now : ℕ) → Grows (delete_old_runs days now db)
  unfolding delete_old_runs
  delete_old_runs-Evolves days now =
      Evolves-delete requeues db.next_id db.attempts _ db _ refl (omega arith) same

  pub reset_runs-Evolves : (timeout : ℤ) (now : ℕ) → Grows (reset_runs timeout now db)
  unfolding reset_runs
  reset_runs-Evolves timeout now = Evolves-same requeues db _ refl (omega arith)

  pub send_heartbeat-Evolves :
      (worker_id : String) (now : ℕ) → Grows (send_heartbeat worker_id now db).0
  unfolding send_heartbeat extended_to
  send_heartbeat-Evolves worker_id now =
      Evolves-update requeues db.next_id db.attempts (is_extendable worker_id now) (extended_to now)
        _ refl (omega arith)
        (λ a m h. record { id = refl; run = refl; number = refl; status = ground arith })

  module _ (ok : Ok db) where
    pub claim_attempt-Evolves :
        (o : OrderBy EarlierFirst) (locked : ℕ → Bool) (queried now : ℕ) (worker_id : String)
        → Grows (claim_attempt o locked queried now worker_id db).0
    unfolding claimed_by
    claim_attempt-Evolves o locked queried now worker_id =
        elim (claim_attempt-ClaimsBest o locked queried now worker_id db ok.attempts.unique_ids) [
          | inl (_, e) ↦ rw e same
          | inr (a, _, _, _, e) ↦ rw e (
              Evolves-update requeues db.next_id db.attempts (is_still_queued a.id)
                (claimed_by worker_id now a.fencing_token) _ refl (omega arith)
                (λ b m h. record { id = refl; run = refl; number = refl; status = ground arith }))
        ]

    -- A row with the token of a claim is not queued.
    pub reported-Evolves :
        (attempt : JobAttempt) (future : Future) (now : ℕ)
        → attempt.fencing_token ≡ 1
        → Grows (reported attempt future now db)
    unfolding finished_with
    reported-Evolves attempt future now one =
        Evolves-update requeues db.next_id db.attempts (passes_fence attempt)
          (finished_with (result_of future) now) _ refl (omega arith)
          (λ a m h. record {
            id = ground arith;
            run = ground arith;
            number = ground arith;
            status =
                ground
                  (arith, All-of_Memᴰ (λ b. is_sound b ≡ true) a db.attempts ok.attempts.sound m);
          })

-- The step that requeues.
pub reset_attempts-Evolves :
    (db : Database) (message : String) (timeout : ℤ) (now : ℕ)
    → Grows true db (reset_attempts message timeout now db)
unfolding reset_attempts reset_attempt
reset_attempts-Evolves db message timeout now =
    Evolves-update true db.next_id db.attempts (is_stuck_attempt timeout now)
      (reset_attempt message) _ refl (omega arith)
      (λ a m h. record { id = refl; run = refl; number = refl; status = ground arith })
