-- ===== src/System/Samples.antt =====
-- A concrete history: a job is triggered, its attempt claimed, reset and claimed again; or claimed,
-- finished and then reset.
use job_schedular.Base.{ℕ, false, ◌≡◌, refl, true, none, some, [], ◌∷◌, Memᴰ}
use job_schedular.Base.Int.{pos}
use job_schedular.Table.{delete, count, select, find?, update, exists}
use job_schedular.OrderBy.{OrderBy}
use job_schedular.OrderBy.Insertion.{sort_by, insert_by}
use job_schedular.OrderBy.Keys.{order_by_key}
use job_schedular.Models.{JobAttempt, Database, new_run, new_attempt}
use job_schedular.Models.Status.{AttemptStatus}
use job_schedular.Models.Samples.{nightly, clock, unlocked}
use job_schedular.Worker.Claim.{
  EarlierFirst, claim_attempt, candidates, claim_row, claimed_by, priority_order,
}
use job_schedular.Worker.Main.{
  reported, handle_attempt_completion, update_run_status, settle_run, finish_run, result_of,
  finished_with,
}
use job_schedular.Api.Jobs.{
  trigger_job, trigger_found, create_run, create_first_attempt, try_first_attempt,
}
use job_schedular.Api.Ops.{
  reset_attempts, reset_runs, reset_stuck_runs, reset_attempt, reset_run, created_before,
}
use job_schedular.System.Workers.{update_run_status-Ok}
use job_schedular.System.Steps.{
  State, reports, start, triggers, queues_first, reads_job, claims, resets, resets_runs,
}
use job_schedular.System.Alone.{ReachAlone, here, next, Reach-of_alone}
use job_schedular.System.Steps.Safe.{IsSafe, Reach-IsSafe, Step-IsSafe, start-IsSafe}
use job_schedular.Worker.Executor.{ExecutionResult, returned}

abbrev pub by_schedule : OrderBy EarlierFirst
by_schedule = order_by_key (λ a. a.scheduled_for)

abbrev pub at_start : State
at_start = start (nightly ∷ [])

abbrev pub triggered : State
triggered = record at_start {
  db = (trigger_job clock 7 100 101 at_start.db).0;
  read = nightly ∷ [];
}

trigger_reached : ReachAlone at_start triggered
unfolding trigger_job trigger_found create_run create_first_attempt try_first_attempt new_run
    new_attempt find? exists delete
trigger_reached =
    next
      (next (next here (reads_job nightly (Memᴰ.head refl)) tt)
        (triggers clock nightly 100 (Memᴰ.head refl) refl) tt)
      (queues_first clock (record { job = nightly; run_id = 0 }) 101 (Memᴰ.head refl)) tt

abbrev pub first_claim : JobAttempt
first_claim = record {
  id = 1;
  job_run_id = 0;
  job_id = 7;
  attempt_number = 1;
  status = AttemptStatus.running;
  priority = "HIGH";
  worker_id = some "worker-a";
  fencing_token = 1;
  lease_expires_at = some 45000200;
  scheduled_for = 101;
  started_at = some 200;
  finished_at = none;
  duration = none;
  error_message = none;
  created_at = 100;
}

abbrev pub claimed : State
claimed = record triggered {
  db = (claim_attempt by_schedule unlocked 200 200 "worker-a" triggered.db).0;
  handed = first_claim ∷ [];
}

-- The time of the reset: over an hour later.
abbrev pub late : ℕ
late = 5000000000

abbrev pub was_reset : State
was_reset = record claimed {
  db = (reset_stuck_runs "Reset by ops endpoint" (pos 60) true late claimed.db).0;
}

pub claim_reached : ReachAlone at_start claimed
unfolding claim_attempt trigger_job trigger_found create_run create_first_attempt new_run
    new_attempt candidates claim_row claimed_by find? select update count sort_by insert_by
    priority_order
claim_reached = next trigger_reached (claims by_schedule unlocked 200 200 "worker-a") tt

pub reached : ReachAlone at_start was_reset
unfolding claim_attempt trigger_job trigger_found create_run create_first_attempt new_run
    new_attempt candidates claim_row claimed_by find? select update count sort_by insert_by
    priority_order reset_stuck_runs reset_attempts reset_runs
reached =
    next (next claim_reached (resets "Reset by ops endpoint" (pos 60) late) tt)
      (resets_runs (pos 60) late) tt

pub nightly_there : Memᴰ nightly was_reset.db.jobs
unfolding claim_attempt trigger_job trigger_found create_run create_first_attempt new_run
    new_attempt candidates claim_row claimed_by find? select update count sort_by insert_by
    priority_order reset_stuck_runs reset_attempts reset_runs reset_attempt reset_run created_before
nightly_there = Memᴰ.head refl

abbrev pub second_claim : JobAttempt
second_claim = record first_claim {
  worker_id = some "worker-b";
  lease_expires_at = some 5045000000;
  started_at = some late;
  error_message = some "Reset by ops endpoint";
}

pub second_claim_result :
    (claim_attempt by_schedule unlocked late late "worker-b" was_reset.db).1 ≡ some second_claim
unfolding claim_attempt trigger_job trigger_found create_run create_first_attempt new_run
    new_attempt candidates claim_row claimed_by find? select update count sort_by insert_by
    priority_order reset_stuck_runs reset_attempts reset_runs reset_attempt reset_run created_before
second_claim_result = refl

abbrev pub report_done : ExecutionResult
report_done = record { success = true; duration_ms = 1500; output = "done"; error = none }

pub first_claim_there : Memᴰ first_claim claimed.db.attempts
unfolding claim_attempt trigger_job trigger_found create_run create_first_attempt new_run
    new_attempt candidates claim_row claimed_by find? select update count sort_by insert_by
    priority_order
first_claim_there = Memᴰ.head refl

-- The database behind the first claim, written out.
abbrev pub running_db : Database
running_db = record {
  jobs = nightly ∷ [];
  runs = new_run 0 7 100 100 ∷ [];
  attempts = first_claim ∷ [];
  workers = [];
  events = [];
  next_id = 2;
}

pub claimed-IsSafe : IsSafe claimed
claimed-IsSafe = Reach-IsSafe (start-IsSafe (nightly ∷ [])) (Reach-of_alone claim_reached)

abbrev pub finished : State
finished = record claimed {
  db = (update_run_status 1601 0 (reported first_claim (returned report_done) 1600 claimed.db)).0;
}

pub finished-IsSafe : IsSafe finished
finished-IsSafe =
    let safe =
      Step-IsSafe (reports first_claim (returned report_done) 1600 (Memᴰ.head refl))
        claimed-IsSafe in
    record {
      tables = update_run_status-Ok 1601 0 _ safe.tables;
      tokens = safe.tokens;
      started = tt;
      expiring = tt;
    }

-- A reset long after the attempt has ended.
abbrev pub reset_again : State
reset_again = record finished {
  db = reset_runs (pos 60) late (reset_attempts "Reset by ops endpoint" (pos 60) late finished.db);
}

abbrev pub first_result : JobAttempt
first_result = record first_claim {
  status = AttemptStatus.success;
  finished_at = some 1600;
  duration = some 1500000;
}

pub first_result_stays :
    Memᴰ first_result finished.db.attempts × Memᴰ first_result reset_again.db.attempts
unfolding claim_attempt trigger_job trigger_found create_run create_first_attempt new_run
    new_attempt candidates claim_row claimed_by find? select update count sort_by insert_by
    priority_order reset_stuck_runs reset_attempts reset_runs reset_attempt reset_run created_before
    handle_attempt_completion finished_with update_run_status settle_run finish_run exists result_of
first_result_stays = (Memᴰ.head refl, Memᴰ.head refl)

abbrev pub report_failed : ExecutionResult
report_failed = record { success = false; duration_ms = 1500; output = ""; error = some "boom" }
