-- ===== src/System/Bounded/Parts.antt =====
-- The operations keep the bound on the attempts of a run.
use job_schedular.Base.{
  ℕ, suc, ◌≤◌, refl, inl, inr, Bool, some, List, [], ◌∷◌, String, arith, ◌==◌, Bool-cases,
  Option-cases, ==_iff, All, ◌≡◌, subst, false,
}
use job_schedular.Base.Int.{ℤ}
use job_schedular.Table.{count, exists, delete}
use job_schedular.Table.Counts.{count-le-of_delete, count-insert, count-update-eq}
use job_schedular.Table.Rows.{All-update}
use job_schedular.OrderBy.{OrderBy}
use job_schedular.Models.{Job, JobAttempt, Database, new_attempt}
use job_schedular.Worker.Claim.{EarlierFirst, is_still_queued, claimed_by, claim_attempt}
use job_schedular.Worker.Claim.Laws.{claim_attempt-ClaimsBest}
use job_schedular.Worker.Heartbeat.{is_extendable, extended_to, send_heartbeat}
use job_schedular.Worker.Main.{of_run}
use job_schedular.Scheduler.Tick.{
  Calendar, PriorityText, tick, due_jobs, create_run_for_job, reschedule_job, moved_to,
  schedule_job, schedule_jobs, calculate_next_run, is_run_of, scheduled_time,
}
use job_schedular.Scheduler.Watchdog.Bound.{IsBounded}
use job_schedular.Api.Ops.{
  reset_attempts, reset_runs, is_stuck_attempt, reset_attempt, delete_old_attempts, delete_old_runs,
}
use job_schedular.Api.Jobs.{
  create_run, create_first_attempt, try_first_attempt, delete_found, deactivated,
}
use job_schedular.System.Tables.{Ok}
use job_schedular.Scheduler.Watchdog.{timed_out_at}
use job_schedular.Scheduler.Watchdog.Transaction.{timed_out_in, commit_expiry}
use job_schedular.System.Expiring.{
  IsCommitted, rolled_back, ended, retried, commit_expiry-IsCommitted,
}
use job_schedular.System.Started.{Started, IsStarted, count-none, try_first_attempt-cases}
use job_schedular.System.Bounded.{
  IsLimited, IsLimited-jobs, count-first, IsLimited-first, count-same_run,
}

create_run-IsLimited :
    (clock : ℕ → ℕ) (job : Job) (now : ℕ) (db : Database)
    → IsLimited db
    → IsLimited (create_run_for_job clock job now db).0
unfolding create_run_for_job new_attempt
create_run-IsLimited clock job now db h =
    elim (Bool-cases (exists (is_run_of job.id (scheduled_time job now)) db.runs)) [
      | inl e ↦ rw e h
      | inr e ↦ rw e (record {
        jobs = h.jobs;
        runs = count-first db _ h refl;
        below = IsLimited-first db _ (suc (suc (suc db.next_id))) h refl (omega arith);
      })
    ]

schedule_job-IsLimited :
    (c : Calendar) (clock : ℕ → ℕ) (now : ℕ) (job : Job) (db : Database)
    → IsLimited db
    → IsLimited (schedule_job c clock now job db).0
unfolding schedule_job reschedule_job moved_to
schedule_job-IsLimited c clock now job db h = elim (Option-cases (calculate_next_run c job now)) [
  | inl e ↦ rw (e, schedule_job) h
  | inr (next, e) ↦
      let w = create_run-IsLimited clock job now db h in
      rw (e, schedule_job)
        (IsLimited-jobs (create_run_for_job clock job now db).0 _
          (All-update (λ j. j.retry_limit ≤ 10) (λ j. j.id == job.id) (moved_to next now)
            (λ j k q. k) _ w.jobs)
          refl (omega arith) w)
]

schedule_jobs-IsLimited :
    (c : Calendar) (clock : ℕ → ℕ) (now : ℕ) (jobs : List Job) (db : Database)
    → IsLimited db
    → IsLimited (schedule_jobs c clock now jobs db).0
unfolding schedule_jobs
schedule_jobs-IsLimited c clock now [] db h = h
schedule_jobs-IsLimited c clock now (job ∷ jobs) db h =
    schedule_jobs-IsLimited c clock now jobs _ (schedule_job-IsLimited c clock now job db h)

module _ (db : Database) (h : IsLimited db) where
  pub unmoved : IsBounded 10 db
  unmoved = record { jobs = h.jobs; runs = h.runs }

  pub tick-IsBounded :
      (c : Calendar) (o : OrderBy PriorityText) (clock : ℕ → ℕ) (locked : ℕ → Bool) (now : ℕ)
      → IsBounded 10 (tick c o clock locked now db).0
  unfolding tick
  tick-IsBounded c o clock locked now =
      let w = schedule_jobs-IsLimited c clock now (due_jobs o locked now db) db h in
      record { jobs = w.jobs; runs = w.runs }

  pub reset_attempts-IsBounded :
      (message : String) (timeout : ℤ) (now : ℕ)
      → IsBounded 10 (reset_attempts message timeout now db)
  unfolding reset_attempts reset_attempt
  reset_attempts-IsBounded message timeout now = record {
    jobs = h.jobs;
    runs = count-same_run db (is_stuck_attempt timeout now) (reset_attempt message) h (λ a. refl);
  }

  pub reset_runs-IsBounded : (timeout : ℤ) (now : ℕ) → IsBounded 10 (reset_runs timeout now db)
  unfolding reset_runs
  reset_runs-IsBounded timeout now = record { jobs = h.jobs; runs = h.runs }

  fewer-IsBounded : (p : JobAttempt → Bool) (i : ℕ) → count (of_run i) (delete p db.attempts) ≤ 10
  fewer-IsBounded p i = omega (arith, h.runs i, count-le-of_delete (of_run i) p db.attempts)

  pub delete_old_attempts-IsBounded :
      (days : ℤ) (now : ℕ) → IsBounded 10 (delete_old_attempts days now db)
  unfolding delete_old_attempts
  delete_old_attempts-IsBounded days now = record { jobs = h.jobs; runs = fewer-IsBounded _ }

  pub delete_old_runs-IsBounded : (days : ℤ) (now : ℕ) → IsBounded 10 (delete_old_runs days now db)
  unfolding delete_old_runs
  delete_old_runs-IsBounded days now = record { jobs = h.jobs; runs = fewer-IsBounded _ }

  pub send_heartbeat-IsBounded :
      (worker_id : String) (now : ℕ) → IsBounded 10 (send_heartbeat worker_id now db).0
  unfolding send_heartbeat extended_to
  send_heartbeat-IsBounded worker_id now = record {
    jobs = h.jobs;
    runs = count-same_run db (is_extendable worker_id now) (extended_to now) h (λ a. refl);
  }

  pub create_run-IsBounded :
      (clock : ℕ → ℕ) (job : Job) (now : ℕ) → IsBounded 10 (create_run clock job now db)
  unfolding create_run
  create_run-IsBounded clock job now = record { jobs = h.jobs; runs = h.runs }

  pub try_first_attempt-IsBounded :
      (clock : ℕ → ℕ) (t : Started) (now : ℕ)
      → IsStarted db t
      → IsBounded 10 (try_first_attempt clock t.job t.run_id now db)
  unfolding create_first_attempt new_attempt
  try_first_attempt-IsBounded clock t now started = elim (try_first_attempt-cases clock now t db) [
    | inl e ↦ rw e unmoved
    | inr (run, job, e) ↦ rw e (record {
      jobs = h.jobs;
      runs = λ i. rw (count-insert (of_run i) _ db.attempts) (elim (Bool-cases (t.run_id == i)) [
        | inr other ↦ rw other (omega (arith, h.runs i))
        | inl same ↦ rw same (
            omega (
              arith,
              count-none (of_run i) db.attempts (
                  subst (λ k. All (λ a. of_run k a ≡ false) db.attempts)
                    ((==_iff t.run_id i).0 same) started.1),
            ))
      ]);
    })
  ]

  pub delete_found-IsBounded :
      (now : ℕ) (job : Job) → job.retry_limit ≤ 10 → IsBounded 10 (delete_found now db (some job)).0
  unfolding delete_found deactivated
  delete_found-IsBounded now job small = record {
    jobs =
        All-update (λ j. j.retry_limit ≤ 10) (λ j. j.id == job.id) _ (λ j k q. small) db.jobs
          h.jobs;
    runs = h.runs;
  }

  pub claim_attempt-IsBounded :
      (o : OrderBy EarlierFirst) (locked : ℕ → Bool) (queried now : ℕ) (worker_id : String)
      → Ok db
      → IsBounded 10 (claim_attempt o locked queried now worker_id db).0
  unfolding claimed_by
  claim_attempt-IsBounded o locked queried now worker_id ok =
      elim (claim_attempt-ClaimsBest o locked queried now worker_id db ok.attempts.unique_ids) [
        | inl (_, e) ↦ rw e unmoved
        | inr (a, _, _, _, e) ↦ rw e (record {
          jobs = h.jobs;
          runs =
              count-same_run db (is_still_queued a.id) (claimed_by worker_id now a.fencing_token) h
                (λ b. refl);
        })
      ]

  -- The run has no more attempts than were counted.
  pub commit_expiry-IsBounded :
      (clock : ℕ → ℕ) (row : JobAttempt) (total : ℕ) (job : Job) (now : ℕ)
      → job.retry_limit ≤ 10
      → count (of_run row.job_run_id) db.attempts ≤ total
      → IsBounded 10 (commit_expiry clock row total job now db)
  commit_expiry-IsBounded clock row total job now small counted =
      from _ (commit_expiry-IsCommitted clock row total job now db)
    where
      same_runs :
          (i : ℕ)
          → count (of_run i) (timed_out_in row now db).attempts ≡ count (of_run i) db.attempts
      same_runs i =
          unfold timed_out_at in
          count-update-eq (of_run i) (λ a. a.id == row.id) (timed_out_at now) (λ a e. refl)
            db.attempts

      from : (after : Database) → IsCommitted clock row total job now db after → IsBounded 10 after
      from after (rolled_back e) = rw e unmoved
      from after (ended e) =
          rw e (record { jobs = h.jobs; runs = λ i. rw (same_runs i) (h.runs i) })
      from after (retried few run known e) = rw e (record {
        jobs = h.jobs;
        runs = λ i.
            unfold new_attempt in
            rw (count-insert (of_run i) _ (timed_out_in row now db).attempts, same_runs i)
              (elim (Bool-cases (row.job_run_id == i)) [
                | inr other ↦ rw other (omega (arith, h.runs i))
                | inl same ↦ rw same (
                    omega (
                      arith,
                      small,
                      few,
                      subst (λ k. count (of_run k) db.attempts ≤ total)
                          ((==_iff row.job_run_id i).0 same) counted,
                    ))
              ]);
      })
