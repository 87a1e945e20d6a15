-- ===== src/Worker/Tests.antt =====
-- The worker's theorems on a table with a LOW and a later HIGH attempt.
use job_schedular.Base.{
  Memᴰ, ◌<◌, not, ℕ, ◌≤◌, ◌≡◌, refl, ◌⊎◌, true, false, none, some, [], ◌∷◌, arith, ◌==◌, length,
}
use job_schedular.Models.{JobAttempt, Database, new_attempt, new_run}
use job_schedular.Worker.Claim.{
  is_claimable, candidate_limit, EarlierFirst, candidates, claim_attempt, claim_row, claimed_by,
  priority_order,
}
use job_schedular.Worker.Claim.Progress.{claim_attempt_progress}
use job_schedular.Models.Status.{AttemptStatus}
use job_schedular.Worker.Heartbeat.{is_extendable, send_heartbeat, find_expired_leases}
use job_schedular.Worker.Heartbeat.Leases.{send_heartbeat_protects}
use job_schedular.Table.{count, select, find?, update}
use job_schedular.OrderBy.{OrderBy}
use job_schedular.OrderBy.Insertion.{sort_by, insert_by}
use job_schedular.OrderBy.Keys.{order_by_key}
use job_schedular.Models.Samples.{nightly, unlocked}
use job_schedular.Worker.Claim.Laws.{Outranks, ClaimsBest, claim_attempt-ClaimsBest}
use job_schedular.Worker.Loop.{Turn, worker_run, initial, max_concurrent}
use job_schedular.Worker.Loop.Limit.{worker_run-InLimit}

abbrev by_schedule : OrderBy EarlierFirst
by_schedule = order_by_key (λ a. a.scheduled_for)

abbrev two_queued : Database
two_queued = record {
  jobs = nightly ∷ [];
  runs = new_run 0 7 100 100 ∷ new_run 1 7 150 150 ∷ [];
  attempts = new_attempt 2 0 7 1 "LOW" 100 100 ∷ new_attempt 3 1 7 1 "HIGH" 150 150 ∷ [];
  workers = [];
  events = [];
  next_id = 4;
}

two_queued_unique : (i : ℕ) → count (λ a. a.id == i) two_queued.attempts ≤ 1
unfolding count new_attempt
two_queued_unique i = ground arith

-- The HIGH attempt goes first, though the LOW one is older.
high_first :
    (claim_attempt by_schedule unlocked 200 200 "worker-a" two_queued).1
    ≡ some (claimed_by "worker-a" 200 0 (new_attempt 3 1 7 1 "HIGH" 150 150))
unfolding claim_attempt candidates claim_row claimed_by new_attempt find? select update count
    sort_by insert_by priority_order
high_first = refl

claim_attempt-ClaimsBest_example :
    ((candidates by_schedule unlocked 200 two_queued ≡ [])
      × (claim_attempt by_schedule unlocked 200 200 "worker-a" two_queued ≡ (two_queued, none)))
    ⊎ ClaimsBest unlocked 200 200 "worker-a"
        (candidates by_schedule unlocked 200 two_queued)
        two_queued
        (claim_attempt by_schedule unlocked 200 200 "worker-a" two_queued)
claim_attempt-ClaimsBest_example =
    claim_attempt-ClaimsBest by_schedule unlocked 200 200 "worker-a" two_queued two_queued_unique

abbrev turn_at : ℕ → Turn
turn_at t = record {
  now = t;
  done = λ id. false;
  locked = unlocked;
  queried = t;
  claimed_at = t;
  submits = true;
}

worker_run-InLimit_example :
    length
      (worker_run by_schedule "worker-a"
        (turn_at 200 ∷ turn_at 300 ∷ [])
        (initial, two_queued)).0.running_futures
    ≤ max_concurrent
worker_run-InLimit_example =
    worker_run-InLimit by_schedule "worker-a" (turn_at 200 ∷ turn_at 300 ∷ []) two_queued

-- The HIGH attempt of the table, claimed with a lease until 500.
abbrev one_leased : Database
one_leased = record two_queued {
  attempts =
      record (new_attempt 3 1 7 1 "HIGH" 150 150) {
        status = AttemptStatus.running;
        fencing_token = 1;
        worker_id = some "worker-a";
        lease_expires_at = some 500;
      }
      ∷ [];
}

send_heartbeat_protects_example :
    find_expired_leases 600 (send_heartbeat "worker-a" 300 one_leased).0
    ≡ select (λ a. not (is_extendable "worker-a" 300 a)) (find_expired_leases 600 one_leased)
send_heartbeat_protects_example =
    send_heartbeat_protects "worker-a" 300 600 one_leased (omega arith)

claim_attempt_progress_example :
    (c : JobAttempt) × Memᴰ c two_queued.attempts
    × (is_claimable unlocked 200 c ≡ true)
    × ((claim_attempt by_schedule unlocked 200 210 "worker-a" two_queued).1
        ≡ some (claimed_by "worker-a" 210 c.fencing_token c))
    × ((candidate_limit < count (is_claimable unlocked 200) two_queued.attempts)
        ⊎ Outranks c (new_attempt 2 0 7 1 "LOW" 100 100))
unfolding new_attempt
claim_attempt_progress_example =
    claim_attempt_progress by_schedule unlocked 200 210 "worker-a" two_queued
      (new_attempt 2 0 7 1 "LOW" 100 100) two_queued_unique (Memᴰ.head refl) refl
