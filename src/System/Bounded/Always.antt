-- ===== src/System/Bounded/Always.antt =====
-- The bound on the attempts of a run in every reachable state.
use job_schedular.Base.{
  subst, some, All-of_Memᴰ, ℕ, ◌≤◌, inl, inr, Bool, Option, not, List, String, arith, if_ind, All,
  str_eq,
}
use job_schedular.Table.{count, exists}
use job_schedular.OrderBy.{OrderBy}
use job_schedular.Models.{Job, OutboxEvent, Database}
use job_schedular.Worker.Heartbeat.{register_worker, mark_worker_dead}
use job_schedular.Worker.Main.{of_run}
use job_schedular.Scheduler.Tick.{Calendar}
use job_schedular.Scheduler.Rabbitmq.{Message}
use job_schedular.Scheduler.Publisher.{Delivery, Session, OldestFirst, publish_pending_events}
use job_schedular.Scheduler.Watchdog.{mark_dead_workers}
use job_schedular.Scheduler.Watchdog.Bound.{IsBounded}
use job_schedular.Api.Serializer.{JobData, JobError, Checks}
use job_schedular.Api.Save.{SaveResult, post_job, patch_found}
use job_schedular.Api.Save.Created.{IsCreation, post_job-IsCreation}
use job_schedular.Api.Save.Changed.{IsUpdate, patch_found-IsUpdate}
use job_schedular.Api.Save.Limits.{AllLimited, post_job-AllLimited, patch_found-AllLimited}
use job_schedular.System.Steps.{State, Step, start}
use job_schedular.System.Steps.Safe.{IsSafe, Step-IsSafe, Reach-IsSafe, start-IsSafe}
use job_schedular.System.Started.{IsStarted}
use job_schedular.System.Expiring.{All-without}
use job_schedular.System.Alone.{ReachAlone, here, next, Reach-of_alone, IsOnly, IsAlone}
use job_schedular.System.Alone.Keeps.{ReachAlone-IsAlone}
use job_schedular.System.Bounded.{IsLimited}
use job_schedular.System.Bounded.Parts.{
  unmoved, commit_expiry-IsBounded, tick-IsBounded, reset_attempts-IsBounded, reset_runs-IsBounded,
  delete_old_attempts-IsBounded, delete_old_runs-IsBounded, send_heartbeat-IsBounded,
  create_run-IsBounded, try_first_attempt-IsBounded, delete_found-IsBounded,
  claim_attempt-IsBounded,
}
use job_schedular.System.Bounded.Completion.{reported-IsBounded, finish_run-IsBounded}

-- Parts of a step that write no attempt.
module _ (db : Database) (h : IsLimited db) where
  publish-IsBounded :
      (o : OrderBy OldestFirst) (env : OutboxEvent → Delivery) (session : Session)
      (locked : ℕ → Bool) (now : ℕ)
      → IsBounded 10 (publish_pending_events o env session locked now db).0
  unfolding publish_pending_events
  publish-IsBounded o env session locked now =
      if_ind (λ (r : Database × List Message × ℕ). IsBounded 10 r.0) (not session.connected) _ _
        (unmoved db h)
        (if_ind (λ (r : Database × List Message × ℕ). IsBounded 10 r.0) session.commits _ _
          (record { jobs = h.jobs; runs = h.runs }) (unmoved db h))

  register-IsBounded :
      (worker_id hostname : String) (now created_at : ℕ)
      → IsBounded 10 (register_worker worker_id hostname now created_at db).0
  unfolding register_worker
  register-IsBounded worker_id hostname now created_at =
      if_ind (λ (r : Database × Bool). IsBounded 10 r.0)
        (exists (λ w. str_eq w.id worker_id) db.workers) _ _
        (record { jobs = h.jobs; runs = h.runs }) (record { jobs = h.jobs; runs = h.runs })

  post_job-IsBounded :
      (c : Checks) (cal : Calendar) (refused : List JobError) (checked now created_at : ℕ)
      (d : JobData)
      → IsBounded 10 (post_job c cal refused checked now created_at d db).0
  post_job-IsBounded c cal refused checked now created_at d = record {
    jobs = post_job-AllLimited c cal refused checked now created_at d db h.jobs;
    runs = created _ (post_job-IsCreation c cal refused checked now created_at d db);
  }
    where
      created :
          (r : Database × SaveResult)
          → IsCreation c checked db r
          → (i : ℕ) → count (of_run i) r.0.attempts ≤ 10
      created r (inl e) i = rw e.0 (h.runs i)
      created r (inr (job, e, good, fresh)) i = rw e (h.runs i)

  patch_found-IsBounded :
      (c : Checks) (cal : Calendar) (refused : List JobError) (checked now saved_at : ℕ)
      (d : JobData) (job : Job)
      → job.retry_limit ≤ 10
      → IsBounded 10 (patch_found c cal refused checked now saved_at d db (some job)).0
  patch_found-IsBounded c cal refused checked now saved_at d job small = record {
    jobs = patch_found-AllLimited c cal refused checked now saved_at d db job small h.jobs;
    runs = updated _ _ (patch_found-IsUpdate c cal refused checked now saved_at d db (some job));
  }
    where
      updated :
          (old : Option Job) (r : Database × SaveResult)
          → IsUpdate cal now saved_at d db old r
          → (i : ℕ) → count (of_run i) r.0.attempts ≤ 10
      updated old r (inl e) i = rw e.0 (h.runs i)
      updated old r (inr (job, new, found, e, changed)) i = rw e (h.runs i)

Step-IsBounded :
    {s t : State}
    → Step s t
    → IsSafe s
    → IsLimited s.db
    → AllLimited s.read
    → IsAlone s
    → IsBounded 10 t.db
unfolding mark_dead_workers mark_worker_dead
Step-IsBounded {s} (Step.ticks c o clock locked now) safe h small alone =
    tick-IsBounded s.db h c o clock locked now
Step-IsBounded {s} (Step.publishes o env session locked now) safe h small alone =
    publish-IsBounded s.db h o env session locked now
Step-IsBounded {s} (Step.looks attempt_id now row e due) safe h small alone = unmoved s.db h
Step-IsBounded {s} (Step.counts e before after q) safe h small alone = unmoved s.db h
Step-IsBounded {s} (Step.expires clock now total job e before after q counted m same) safe h small
      alone =
    commit_expiry-IsBounded s.db h clock e.row total job now
      (All-of_Memᴰ (λ j. j.retry_limit ≤ 10) job s.read small m)
      ((All-without (IsOnly s.db.attempts) before e after
          (subst (All (IsOnly s.db.attempts)) q alone.only)).0.counted
        total counted)
Step-IsBounded {s} (Step.gives_up e before after q) safe h small alone = unmoved s.db h
Step-IsBounded {s} (Step.judges_open run) safe h small alone = unmoved s.db h
Step-IsBounded {s} (Step.saves now v before after e) safe h small alone =
    finish_run-IsBounded v.status now v.run_id s.db (unmoved s.db h)
Step-IsBounded {s} (Step.sweeps now) safe h small alone = record { jobs = h.jobs; runs = h.runs }
Step-IsBounded {s} (Step.claims o locked queried now worker_id) safe h small alone =
    claim_attempt-IsBounded s.db h o locked queried now worker_id safe.tables
Step-IsBounded {s} (Step.registers worker_id hostname now created_at) safe h small alone =
    register-IsBounded s.db h worker_id hostname now created_at
Step-IsBounded {s} (Step.beats worker_id now) safe h small alone =
    send_heartbeat-IsBounded s.db h worker_id now
Step-IsBounded {s} (Step.stops worker_id) safe h small alone = record {
  jobs = h.jobs;
  runs = h.runs;
}
Step-IsBounded {s} (Step.reports attempt future now m) safe h small alone =
    reported-IsBounded attempt future now s.db h
Step-IsBounded {s} (Step.judges attempt m) safe h small alone = unmoved s.db h
Step-IsBounded {s} (Step.triggers clock job now m active) safe h small alone =
    create_run-IsBounded s.db h clock job now
Step-IsBounded {s} (Step.queues_first clock t now m) safe h small alone =
    try_first_attempt-IsBounded s.db h clock t now
      (All-of_Memᴰ (IsStarted s.db) t s.started safe.started m)
Step-IsBounded {s} (Step.posts_job c cal refused checked now created_at d) safe h small alone =
    post_job-IsBounded s.db h c cal refused checked now created_at d
Step-IsBounded {s} (Step.reads_job job m) safe h small alone = unmoved s.db h
Step-IsBounded {s} (Step.patches_job c cal refused checked now saved_at d job m) safe h small
      alone =
    patch_found-IsBounded s.db h c cal refused checked now saved_at d job
      (All-of_Memᴰ (λ j. j.retry_limit ≤ 10) job s.read small m)
Step-IsBounded {s} (Step.deletes_job now job m) safe h small alone =
    delete_found-IsBounded s.db h now job (All-of_Memᴰ (λ j. j.retry_limit ≤ 10) job s.read small m)
Step-IsBounded {s} (Step.resets message timeout now) safe h small alone =
    reset_attempts-IsBounded s.db h message timeout now
Step-IsBounded {s} (Step.resets_runs timeout now) safe h small alone =
    reset_runs-IsBounded s.db h timeout now
Step-IsBounded {s} (Step.cleans days now) safe h small alone =
    delete_old_attempts-IsBounded s.db h days now
Step-IsBounded {s} (Step.cleans_runs days now) safe h small alone =
    delete_old_runs-IsBounded s.db h days now

-- The rows that requests have read have the limits that jobs had.
Step-read : {s t : State} → Step s t → AllLimited s.db.jobs → AllLimited s.read → AllLimited t.read
Step-read {s} (Step.reads_job job m) all read =
    (All-of_Memᴰ (λ j. j.retry_limit ≤ 10) job s.db.jobs all m, read)
Step-read (Step.ticks c o clock locked now) all read = read
Step-read (Step.publishes o env session locked now) all read = read
Step-read (Step.looks attempt_id now row e due) all read = read
Step-read (Step.counts e before after q) all read = read
Step-read (Step.expires clock now total job e before after q counted m same) all read = read
Step-read (Step.gives_up e before after q) all read = read
Step-read (Step.judges_open run) all read = read
Step-read (Step.saves now v before after e) all read = read
Step-read (Step.sweeps now) all read = read
Step-read (Step.claims o locked queried now worker_id) all read = read
Step-read (Step.registers worker_id hostname now created_at) all read = read
Step-read (Step.beats worker_id now) all read = read
Step-read (Step.stops worker_id) all read = read
Step-read (Step.reports attempt future now m) all read = read
Step-read (Step.judges attempt m) all read = read
Step-read (Step.triggers clock job now m active) all read = read
Step-read (Step.queues_first clock t now m) all read = read
Step-read (Step.posts_job c cal refused checked now created_at d) all read = read
Step-read (Step.patches_job c cal refused checked now saved_at d job m) all read = read
Step-read (Step.deletes_job now job m) all read = read
Step-read (Step.resets message timeout now) all read = read
Step-read (Step.resets_runs timeout now) all read = read
Step-read (Step.cleans days now) all read = read
Step-read (Step.cleans_runs days now) all read = read

Reach-IsLimited :
    (jobs : List Job) (s : State)
    → AllLimited jobs
    → ReachAlone (start jobs) s
    → IsLimited s.db × AllLimited s.read
unfolding count
Reach-IsLimited jobs s small here =
    (record { jobs = small; runs = λ i. omega arith; below = tt }, tt)
Reach-IsLimited jobs s small (next {t} r step alone) =
    let safe = Reach-IsSafe (start-IsSafe jobs) (Reach-of_alone r) in
    let (limited, read) = Reach-IsLimited jobs t small r in
    let b = Step-IsBounded step safe limited read (ReachAlone-IsAlone jobs t r) in
    (
      record {
        jobs = b.jobs;
        runs = b.runs;
        below = (Step-IsSafe step safe).tables.attempts.runs_below;
      },
      Step-read step limited.jobs read,
    )

-- In every state that is reached with one scheduler from jobs whose retry limits are at most ten, no run has more
-- than ten attempts and no job a larger limit.
pub Reach-bounded :
    (jobs : List Job) (s : State)
    → AllLimited jobs
    → ReachAlone (start jobs) s
    → ((i : ℕ) → count (of_run i) s.db.attempts ≤ 10) × AllLimited s.db.jobs
Reach-bounded jobs s small r = let h = (Reach-IsLimited jobs s small r).0 in (h.runs, h.jobs)
