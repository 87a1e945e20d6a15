-- ===== src/System/Steps/Safe.antt =====
-- What holds of the state after any number of steps.
use job_schedular.Base.{
  ◌==◌, subst, ◌++◌, ℕ, ◌≡◌, refl, Bool, Option, none, some, List, String, arith, All, All-of_Memᴰ,
  false,
}
use job_schedular.Table.{count}
use job_schedular.OrderBy.{OrderBy}
use job_schedular.Models.{Job, JobAttempt, Database}
use job_schedular.Worker.Claim.{EarlierFirst, claim_attempt}
use job_schedular.Worker.Heartbeat.{mark_worker_dead}
use job_schedular.Scheduler.Watchdog.{mark_dead_workers}
use job_schedular.System.Attempts.{AttemptsOk-empty}
use job_schedular.System.Started.{
  IsStarted, Evolves-AllStarted, create_run-Ok, create_run-IsStarted, create_run-Evolves,
  try_first_attempt-Ok, try_first_attempt-Moves, try_first_attempt-AllStarted,
}
use job_schedular.System.Lifecycle.Parts.{
  tick-Evolves, reset_attempts-Evolves, reset_runs-Evolves, delete_old_attempts-Evolves,
  delete_old_runs-Evolves, send_heartbeat-Evolves, claim_attempt-Evolves, reported-Evolves,
}
use job_schedular.System.Expiring.{
  IsPending, IsPending-later, All-without, All-with, commit_expiry-Ok, commit_expiry-Moves,
  commit_expiry-AllStarted, looked-IsPending, triggered-IsPending, settled-IsPending,
}
use job_schedular.Table.Rows.{find?-eq-some}
use job_schedular.System.Lifecycle.Others.{
  publish-Evolves, register-Evolves, delete_found-Evolves, post_job-Evolves, patch_found-Evolves,
}
use job_schedular.Worker.Main.{finish_run}
use job_schedular.System.Tables.{Ok}
use job_schedular.System.Workers.{
  claim_attempt-Ok, claim_attempt-Handed, register_worker-Ok, send_heartbeat-Ok, reported-Ok,
  finish_run-Ok,
}
use job_schedular.System.Schedulers.{publish_pending_events-Ok, tick-Ok}
use job_schedular.System.Operators.{
  post_job-Ok, patch_found-Ok, reset_attempts-Ok, reset_runs-Ok, delete_old_attempts-Ok,
  delete_old_runs-Ok, delete_found-Ok,
}
use job_schedular.System.Lifecycle.{Evolves}
use job_schedular.System.Steps.{
  State, Step, Reach, here, next, start, hand_over, ticks, publishes, looks, counts, expires,
  gives_up, judges_open, saves, sweeps, claims, registers, beats, stops, reports, judges, triggers,
  queues_first, posts_job, reads_job, patches_job, deletes_job, resets, resets_runs, cleans,
  cleans_runs,
}

pub record IsSafe (s : State) : Type 0 where
  pub tables : Ok s.db
  pub tokens : All (λ a. a.fencing_token ≡ 1) s.handed
  pub started : All (IsStarted s.db) s.started
  pub expiring : All (IsPending s.db.next_id s.started) s.expiring

pub start-IsSafe : (jobs : List Job) → IsSafe (start jobs)
start-IsSafe jobs = record {
  tables = record {
    attempts = AttemptsOk-empty;
    runs_below = tt;
    unique_runs = λ i. unfold count in omega arith;
    known_runs = tt;
    known_jobs = tt;
  };
  tokens = tt;
  started = tt;
  expiring = tt;
}

claims-tokens :
    (o : OrderBy EarlierFirst) (locked : ℕ → Bool) (queried now : ℕ) (worker_id : String)
    (s : State)
    → IsSafe s
    → (c : Option JobAttempt) → (claim_attempt o locked queried now worker_id s.db).1 ≡ c
    → All (λ a. a.fencing_token ≡ 1) (hand_over c s.handed)
claims-tokens o locked queried now worker_id s safe none e = safe.tokens
claims-tokens o locked queried now worker_id s safe (some c) e =
    ((claim_attempt-Handed o locked queried now worker_id s.db c safe.tables e).1, safe.tokens)

-- An operation that keeps the tables in order and lets the attempts evolve keeps the state safe.
keeps :
    {requeues : Bool} {s : State} {after : Database}
    → IsSafe s
    → Evolves requeues s.db.next_id s.db.attempts after
    → Ok after
    → IsSafe (record s { db = after })
keeps {requeues} {s} {after} h v ok = record {
  tables = ok;
  tokens = h.tokens;
  started = Evolves-AllStarted requeues s.db after v s.started h.started;
  expiring =
      IsPending-later s.db.next_id after.next_id s.started v.moves.later s.expiring h.expiring;
}

-- Every step keeps the state safe.
pub Step-IsSafe : {s t : State} → Step s t → IsSafe s → IsSafe t
Step-IsSafe {s} (ticks c o clock locked now) h =
    keeps h (tick-Evolves false s.db c o clock locked now)
      (tick-Ok c o clock locked now s.db h.tables)
Step-IsSafe {s} (publishes o env session locked now) h =
    keeps h (publish-Evolves false s.db o env session locked now)
      (publish_pending_events-Ok o env session locked now s.db h.tables)
Step-IsSafe {s} (looks attempt_id now row e due) h = record {
  tables = h.tables;
  tokens = h.tokens;
  started = h.started;
  expiring = (
    looked-IsPending s.db s.started row h.tables h.started
        (find?-eq-some (λ a. a.id == attempt_id) s.db.attempts row e).1,
    h.expiring,
  );
}
Step-IsSafe {s} (counts e before after q) h =
    let (mine, rest) =
      All-without (IsPending s.db.next_id s.started) before e after
        (subst (All (IsPending s.db.next_id s.started)) q h.expiring) in
    record {
      tables = h.tables;
      tokens = h.tokens;
      started = h.started;
      expiring = All-with (IsPending s.db.next_id s.started) before _ after mine rest;
    }
Step-IsSafe {s} (expires clock now total job e before after q counted m same) h =
    let (mine, rest) =
      All-without (IsPending s.db.next_id s.started) before e after
        (subst (All (IsPending s.db.next_id s.started)) q h.expiring) in
    record {
      tables = commit_expiry-Ok clock e.row total job now s.db h.tables mine.0;
      tokens = h.tokens;
      started = commit_expiry-AllStarted clock e.row total job now s.db s.started mine.1 h.started;
      expiring =
          IsPending-later s.db.next_id _ s.started
            (commit_expiry-Moves clock e.row total job now s.db).later (before ++ after) rest;
    }
Step-IsSafe {s} (gives_up e before after q) h = record {
  tables = h.tables;
  tokens = h.tokens;
  started = h.started;
  expiring =
      (All-without (IsPending s.db.next_id s.started) before e after
        (subst (All (IsPending s.db.next_id s.started)) q h.expiring)).1;
}
Step-IsSafe {s} (judges_open run) h = record {
  tables = h.tables;
  tokens = h.tokens;
  started = h.started;
  expiring = h.expiring;
}
Step-IsSafe {s} (saves now v before after e) h = record {
  tables = finish_run-Ok v.status now v.run_id s.db h.tables;
  tokens = h.tokens;
  started = unfold finish_run in h.started;
  expiring = unfold finish_run in h.expiring;
}
Step-IsSafe {s} (sweeps now) h = record {
  tables = unfold mark_dead_workers in h.tables;
  tokens = h.tokens;
  started = unfold mark_dead_workers in h.started;
  expiring = unfold mark_dead_workers in h.expiring;
}
Step-IsSafe {s} (claims o locked queried now worker_id) h = record {
  tables = claim_attempt-Ok o locked queried now worker_id s.db h.tables;
  tokens = claims-tokens o locked queried now worker_id s h _ refl;
  started =
      Evolves-AllStarted false s.db _
        (claim_attempt-Evolves false s.db h.tables o locked queried now worker_id) s.started
        h.started;
  expiring =
      IsPending-later s.db.next_id _ s.started
        (claim_attempt-Evolves false s.db h.tables o locked queried now worker_id).moves.later
        s.expiring h.expiring;
}
Step-IsSafe {s} (registers worker_id hostname now created_at) h =
    keeps h (register-Evolves false s.db worker_id hostname now created_at)
      (register_worker-Ok worker_id hostname now created_at s.db h.tables)
Step-IsSafe {s} (beats worker_id now) h =
    keeps h (send_heartbeat-Evolves false s.db worker_id now)
      (send_heartbeat-Ok worker_id now s.db h.tables)
Step-IsSafe {s} (stops worker_id) h = record {
  tables = unfold mark_worker_dead in h.tables;
  tokens = h.tokens;
  started = unfold mark_worker_dead in h.started;
  expiring = unfold mark_worker_dead in h.expiring;
}
Step-IsSafe {s} (reports attempt future now m) h =
    keeps h
      (reported-Evolves false s.db h.tables attempt future now
        (All-of_Memᴰ (λ a. a.fencing_token ≡ 1) attempt s.handed h.tokens m))
      (reported-Ok attempt future now s.db
        (All-of_Memᴰ (λ a. a.fencing_token ≡ 1) attempt s.handed h.tokens m) h.tables)
Step-IsSafe {s} (judges attempt m) h = record {
  tables = h.tables;
  tokens = h.tokens;
  started = h.started;
  expiring = h.expiring;
}
Step-IsSafe {s} (triggers clock job now m active) h = record {
  tables = create_run-Ok clock job s.db h.tables now;
  tokens = h.tokens;
  started = (
    create_run-IsStarted clock job s.db h.tables now,
    Evolves-AllStarted false s.db _ (create_run-Evolves clock job now s.db) s.started h.started,
  );
  expiring =
      triggered-IsPending s.db.next_id _ s.started (record { job = job; run_id = s.db.next_id })
        refl (create_run-Evolves clock job now s.db).moves.later s.expiring h.expiring;
}
Step-IsSafe {s} (queues_first clock t now m) h = record {
  tables =
      try_first_attempt-Ok clock now t s.db h.tables
        (All-of_Memᴰ (IsStarted s.db) t s.started h.started m);
  tokens = h.tokens;
  started = try_first_attempt-AllStarted clock now t s.db s.started h.started;
  expiring =
      settled-IsPending s.db.next_id _ s.started (λ u. u.run_id == t.run_id)
        (try_first_attempt-Moves clock now t s.db).later s.expiring h.expiring;
}
Step-IsSafe {s} (posts_job c cal refused checked now created_at d) h =
    keeps h (post_job-Evolves false s.db c cal refused checked now created_at d)
      (post_job-Ok c cal refused checked now created_at d s.db h.tables)
Step-IsSafe {s} (reads_job job m) h = record {
  tables = h.tables;
  tokens = h.tokens;
  started = h.started;
  expiring = h.expiring;
}
Step-IsSafe {s} (patches_job c cal refused checked now saved_at d job m) h =
    keeps h (patch_found-Evolves false s.db c cal refused checked now saved_at d (some job))
      (patch_found-Ok c cal refused checked now saved_at d s.db (some job) h.tables)
Step-IsSafe {s} (deletes_job now job m) h =
    keeps h (delete_found-Evolves false s.db now (some job))
      (delete_found-Ok now s.db (some job) h.tables)
Step-IsSafe {s} (resets message timeout now) h =
    keeps h (reset_attempts-Evolves s.db message timeout now)
      (reset_attempts-Ok message timeout now s.db h.tables)
Step-IsSafe {s} (resets_runs timeout now) h =
    keeps h (reset_runs-Evolves false s.db timeout now) (reset_runs-Ok timeout now s.db h.tables)
Step-IsSafe {s} (cleans days now) h =
    keeps h (delete_old_attempts-Evolves false s.db days now)
      (delete_old_attempts-Ok days now s.db h.tables)
Step-IsSafe {s} (cleans_runs days now) h =
    keeps h (delete_old_runs-Evolves false s.db days now)
      (delete_old_runs-Ok days now s.db h.tables)

pub Reach-IsSafe : {s t : State} → IsSafe s → Reach s t → IsSafe t
Reach-IsSafe h here = h
Reach-IsSafe h (next r st) = Step-IsSafe st (Reach-IsSafe h r)
