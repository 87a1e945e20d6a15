-- ===== src/Worker/Loop/Limit.antt =====
-- How many running jobs a worker tracks.
use job_schedular.Base.{
  ℕ, suc, ◌-◌, inl, inr, ◌≤◌, ◌<◌, Option, none, some, List, [], ◌∷◌, String, arith, leb, ◌==◌,
  if_ind, Bool-cases, length, length-append,
}
use job_schedular.Table.{delete, exists, insert}
use job_schedular.Table.Counts.{length-delete-le}
use job_schedular.OrderBy.{OrderBy}
use job_schedular.Models.{JobAttempt, Database}
use job_schedular.Worker.Claim.{EarlierFirst, claim_attempt}
use job_schedular.Worker.Loop.{
  Loop, Turn, max_concurrent, add_future, beat_if_due, track, claim_and_track, clean_up,
  worker_turn, worker_run, initial,
}

add_future-le : (id : ℕ) (ids : List ℕ) → length (add_future id ids) ≤ suc (length ids)
unfolding add_future
add_future-le id ids =
    if_ind (λ r. length r ≤ suc (length ids)) (exists (λ i. i == id) ids) ids (insert id ids)
      (omega arith) (omega (arith, length-append ids (id ∷ [])))

track-le :
    (t : Turn) (a : Option JobAttempt) (ids : List ℕ) → length (track t a ids) ≤ suc (length ids)
unfolding track
track-le t none ids = omega arith
track-le t (some a) ids =
    if_ind (λ r. length r ≤ suc (length ids)) t.submits (add_future a.id ids) ids
      (add_future-le a.id ids) (omega arith)

abbrev InLimit : Loop × Database → Type 0
InLimit s = length s.0.running_futures ≤ max_concurrent

claim_and_track-InLimit :
    (o : OrderBy EarlierFirst) (worker_id : String) (t : Turn) (loop : Loop) (db : Database)
    → length loop.running_futures < max_concurrent
    → InLimit (claim_and_track o worker_id t (loop, db))
unfolding claim_and_track
claim_and_track-InLimit o worker_id t loop db h = omega (
  arith,
  track-le t (claim_attempt o t.locked t.queried t.claimed_at worker_id db).1 loop.running_futures,
)

beat_if_due-InLimit :
    (worker_id : String) (t : Turn) (s : Loop × Database)
    → InLimit s
    → InLimit (beat_if_due worker_id t s)
unfolding beat_if_due
beat_if_due-InLimit worker_id t (loop, db) h =
    if_ind InLimit (leb _ (t.now - loop.last_heartbeat)) _ _ h h

worker_turn-InLimit :
    (o : OrderBy EarlierFirst) (worker_id : String) (t : Turn) (s : Loop × Database)
    → InLimit s
    → InLimit (worker_turn o worker_id t s)
unfolding worker_turn clean_up
worker_turn-InLimit o worker_id t s h = elim (Bool-cases (leb max_concurrent (length kept))) [
  | inl e ↦ rw e still
  | inr e ↦ rw e (claim_and_track-InLimit o worker_id t _ _ (ground arith))
]
  where
    kept : List ℕ
    kept = delete t.done (beat_if_due worker_id t s).0.running_futures

    still : length kept ≤ max_concurrent
    still = omega (
      arith,
      length-delete-le t.done (beat_if_due worker_id t s).0.running_futures,
      beat_if_due-InLimit worker_id t s h,
    )

worker_run_from :
    (o : OrderBy EarlierFirst) (worker_id : String) (ts : List Turn) (s : Loop × Database)
    → InLimit s
    → InLimit (worker_run o worker_id ts s)
unfolding worker_run
worker_run_from o worker_id [] s h = h
worker_run_from o worker_id (t ∷ ts) s h =
    worker_run_from o worker_id ts (worker_turn o worker_id t s)
      (worker_turn-InLimit o worker_id t s h)

-- From its start, after any number of turns of its loop, and whatever the executor, the database and
-- the clock do, a worker tracks at most four running jobs.
pub worker_run-InLimit :
    (o : OrderBy EarlierFirst) (worker_id : String) (ts : List Turn) (db : Database)
    → length (worker_run o worker_id ts (initial, db)).0.running_futures ≤ max_concurrent
worker_run-InLimit o worker_id ts db = worker_run_from o worker_id ts (initial, db) (omega arith)
