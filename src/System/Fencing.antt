-- ===== src/System/Fencing.antt =====
-- What the fencing token does, and what it does not do.
use job_schedular.Base.{
  ℕ, ◌<◌, ◌≡◌, refl, sym, ◌∙◌, ◌≢◌, inl, inr, Bool, true, not, Option, none, some, List, String,
  Memᴰ, arith, ◌==◌, ==_iff, ==-refl, Bool-cases, if_ind, leb, ltb, All-of_Memᴰ,
}
use job_schedular.Table.{count, update}
use job_schedular.Table.Counts.{count_pos_of_Memᴰ, count-update-eq, count-insert}
use job_schedular.OrderBy.{OrderBy}
use job_schedular.Models.{Job, JobAttempt, Database}
use job_schedular.Worker.Claim.{EarlierFirst, claim_attempt}
use job_schedular.Worker.Executor.{Future}
use job_schedular.Worker.Main.{
  stale, passes_fence, update_run_status, of_run, handle_attempt_completion,
}
use job_schedular.Scheduler.Watchdog.{
  Expiry, timed_out_at, retry_attempt, expire_for, expire_lease, expire_row, expire_found,
  handle_expired_attempt,
}
use job_schedular.System.Workers.{claim_attempt-Handed}
use job_schedular.System.Steps.{State, Reach, start}
use job_schedular.System.Steps.Safe.{IsSafe, start-IsSafe, Reach-IsSafe}

update_run_status-not_stale :
    (now run_id : ℕ) (db : Database) → (update_run_status now run_id db).1 ≢ stale
unfolding update_run_status
update_run_status-not_stale now run_id db = ground arith

-- A completion is not refused if a row has the id and the token of the claim.
pub not_stale :
    (a : JobAttempt) (future : Future) (now settled : ℕ) (db : Database)
    → 0 < count (passes_fence a) db.attempts
    → (handle_attempt_completion a future now settled db).1 ≢ stale
unfolding handle_attempt_completion
not_stale a future now settled db h = elim (Bool-cases (count (passes_fence a) db.attempts == 0)) [
  | inl e ↦ absurd (ground arith)
  | inr e ↦ rw e (update_run_status-not_stale settled a.job_run_id _)
]

-- In every reachable state, if an attempt that was handed to a worker before is claimed again (the
-- ops endpoint resets it to QUEUED with token 0), the second claim has the token of the first: the
-- callback of the first worker passes the fencing check and is not rejected.
pub reclaim-not_stale :
    (jobs : List Job) (s : State)
    → Reach (start jobs) s
    → (a c : JobAttempt) (o : OrderBy EarlierFirst) (locked : ℕ → Bool) (queried claimed_at : ℕ)
      (worker_id : String) (future : Future) (now settled : ℕ)
    → Memᴰ a s.handed
    → (claim_attempt o locked queried claimed_at worker_id s.db).1 ≡ some c
    → c.id ≡ a.id
    → (c.fencing_token ≡ a.fencing_token)
      × ((handle_attempt_completion a future now settled
            (claim_attempt o locked queried claimed_at worker_id s.db).0).1
          ≢ stale)
reclaim-not_stale jobs s r a c o locked queried claimed_at worker_id future now settled m e same = (
  tokens,
  not_stale a future now settled _ (count_pos_of_Memᴰ (passes_fence a) _ c passes claimed.0),
)
  where
    safe : IsSafe s
    safe = Reach-IsSafe (start-IsSafe jobs) r

    claimed :
        Memᴰ c (claim_attempt o locked queried claimed_at worker_id s.db).0.attempts
        × (c.fencing_token ≡ 1)
    claimed = claim_attempt-Handed o locked queried claimed_at worker_id s.db c safe.tables e

    tokens : c.fencing_token ≡ a.fencing_token
    tokens = claimed.1 ∙ sym (All-of_Memᴰ (λ x. x.fencing_token ≡ 1) a s.handed safe.tokens m)

    passes : passes_fence a c ≡ true
    passes =
        ground (arith, (==_iff c.id a.id).1 same, (==_iff c.fencing_token a.fencing_token).1 tokens)

module _ (clock : ℕ → ℕ) (a : JobAttempt) (now : ℕ) where
  abbrev fence : JobAttempt → Bool
  fence = passes_fence a

  abbrev Passes : Database × Expiry → Type 0
  Passes r = 0 < count fence r.0.attempts

  retry-Passes :
      (row : JobAttempt) (job : Job) (db : Database)
      → 0 < count fence db.attempts
      → Passes (retry_attempt clock row job now db)
  unfolding retry_attempt
  retry-Passes row job db h =
      if_ind Passes (ltb (count (of_run row.job_run_id) db.attempts) job.retry_limit) _ _
        (omega (arith, count-insert fence _ db.attempts)) h

  timed_out-Passes :
      (row : JobAttempt) (db : Database)
      → 0 < count fence db.attempts
      → 0 < count fence (update (λ b. b.id == row.id) (timed_out_at now) db.attempts)
  unfolding timed_out_at
  timed_out-Passes row db h =
      rw (count-update-eq fence (λ b. b.id == row.id) (timed_out_at now) (λ b e. refl) db.attempts)
        h

  expire_for-Passes :
      (row : JobAttempt) (db : Database) (job : Option Job)
      → 0 < count fence db.attempts
      → Passes (expire_for clock row now db job)
  unfolding expire_for
  expire_for-Passes row db none h = h
  expire_for-Passes row db (some job) h = retry-Passes row job _ (timed_out-Passes row db h)

  expire_lease-Passes :
      (row : JobAttempt) (db : Database) (lease : Option ℕ)
      → 0 < count fence db.attempts
      → Passes (expire_lease clock row now db lease)
  unfolding expire_lease
  expire_lease-Passes row db none h = h
  expire_lease-Passes row db (some lease) h =
      if_ind Passes (leb now lease) _ _ h (expire_for-Passes row db _ h)

  expire_found-Passes :
      (row : Option JobAttempt) (db : Database)
      → 0 < count fence db.attempts
      → Passes (expire_found clock now db row)
  unfolding expire_found expire_row
  expire_found-Passes none db h = h
  expire_found-Passes (some row) db h =
      if_ind Passes (not _) _ _ h (expire_lease-Passes row db row.lease_expires_at h)

-- The watchdog does not fence the worker out: if a row with the id and the token of the claim was in
-- the table, then after the watchdog has handled the attempt, timed it out and maybe queued its
-- retry, the callback of the worker is still not rejected.
pub expired-not_stale :
    (clock : ℕ → ℕ) (a : JobAttempt) (expired_at : ℕ) (future : Future) (now settled : ℕ)
    (db : Database)
    → Memᴰ a db.attempts
    → (handle_attempt_completion a future now settled
        (handle_expired_attempt clock a expired_at db).0).1
      ≢ stale
unfolding handle_expired_attempt
expired-not_stale clock a expired_at future now settled db m = not_stale a future now settled _ (
    expire_found-Passes clock a expired_at _ db (
      count_pos_of_Memᴰ (passes_fence a) db.attempts a
        (ground (arith, ==-refl a.id, ==-refl a.fencing_token)) m))
