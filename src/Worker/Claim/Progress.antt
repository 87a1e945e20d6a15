-- ===== src/Worker/Claim/Progress.antt =====
-- When a claim comes back with an attempt.
use job_schedular.Base.{
  ℕ, ◌≤◌, ◌<◌, ◌≡◌, ◌⊎◌, leb, arith, Bool-cases, ap, inl, inr, Bool, true, some, List, [], ◌∷◌,
  Memᴰ, ◌==◌, String, take,
}
use job_schedular.Table.{select, count}
use job_schedular.Table.Rows.{Memᴰ-select}
use job_schedular.OrderBy.{OrderBy}
use job_schedular.Models.{JobAttempt, Database}
use job_schedular.Worker.Claim.{
  EarlierFirst, candidate_limit, is_claimable, candidates, claim_attempt, claimed_by,
}
use job_schedular.Worker.Claim.Laws.{Outranks, candidates_all, claim_attempt-ClaimsBest}

-- A row that may be claimed makes the list of candidates not empty.
candidates_not_nil :
    (o : OrderBy EarlierFirst) (locked : ℕ → Bool) (queried : ℕ) (db : Database) (a : JobAttempt)
    → Memᴰ a db.attempts
    → is_claimable locked queried a ≡ true
    → candidates o locked queried db ≡ []
    → ⊥
unfolding candidates
candidates_not_nil o locked queried db a m claimable e =
    from_sorted (o.sort (select (is_claimable locked queried) db.attempts))
      ((o.mem-sort a _).1 (Memᴰ-select (is_claimable locked queried) db.attempts a m claimable)) e
  where
    from_sorted : (xs : List JobAttempt) → Memᴰ a xs → take candidate_limit xs ≡ [] → ⊥
    from_sorted [] i h = elim i [ ]
    from_sorted (x ∷ xs) i h = cc

-- If the ids of attempts are unique and some attempt may be claimed (QUEUED, scheduled for no later than the
-- reading of the clock, and not locked), then a claim comes back with an attempt, as claimed for the worker;
-- and the one that may be claimed does not outrank it, unless more than fifty may be claimed.
pub claim_attempt_progress :
    (o : OrderBy EarlierFirst) (locked : ℕ → Bool) (queried now : ℕ) (worker_id : String)
    (db : Database) (a : JobAttempt)
    → ((i : ℕ) → count (λ (x : JobAttempt). x.id == i) db.attempts ≤ 1)
    → Memᴰ a db.attempts
    → is_claimable locked queried a ≡ true
    → (c : JobAttempt) × Memᴰ c db.attempts
      × (is_claimable locked queried c ≡ true)
      × ((claim_attempt o locked queried now worker_id db).1
          ≡ some (claimed_by worker_id now c.fencing_token c))
      × ((candidate_limit < count (is_claimable locked queried) db.attempts) ⊎ Outranks c a)
claim_attempt_progress o locked queried now worker_id db a unique m claimable =
    elim (claim_attempt-ClaimsBest o locked queried now worker_id db unique) [
      | inl (empty, e) ↦ absurd (candidates_not_nil o locked queried db a m claimable empty)
      | inr (c, mc, ok, best, e) ↦ (
        c,
        mc,
        ok,
        ap (λ r. r.1) e,
        elim (Bool-cases (leb (count (is_claimable locked queried) db.attempts) candidate_limit)) [
          | inl few ↦
              inr (best a (candidates_all o locked queried db (ground (arith, few)) a m claimable))
          | inr many ↦ inl (ground (arith, many))
        ],
      )
    ]
