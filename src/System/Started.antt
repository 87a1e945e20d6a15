-- ===== src/System/Started.antt =====
-- A manual trigger (apps/jobs/views.py) between its two transactions: the run is written, its attempt is not.
use job_schedular.Base.{
  ℕ, suc, ◌<◌, ◌≡◌, refl, ◌⊎◌, inl, inr, Bool, false, ◌&&◌, &&-true, List, [], ◌∷◌, arith, ◌==◌,
  Bool-cases, All, All-map, All-append, All-of_Memᴰ,
}
use job_schedular.Table.{count, exists, delete}
use job_schedular.Table.Counts.{exists-true→count}
use job_schedular.Table.Rows.{All-delete_kept}
use job_schedular.Models.{Job, JobAttempt, Database, new_run, new_attempt}
use job_schedular.Worker.Main.{of_run}
use job_schedular.Api.Jobs.{create_run, create_first_attempt, try_first_attempt}
use job_schedular.System.Tables.{
  Ok, TablesOk-insert_run, TablesOk-insert_attempt, run_has_id, job_has_id,
}
use job_schedular.System.Lifecycle.{OfRun, Evolves, Evolves-same, Moves, Comes-insert, Comes-refl}

-- The run that a trigger has written, and the job as it was read.
pub record Started : Type 0 where
  pub job : Job
  pub run_id : ℕ

-- The run was written and has no attempt.
abbrev pub IsStarted : Database → Started → Type 0
IsStarted db t = (t.run_id < db.next_id) × All (λ a. of_run t.run_id a ≡ false) db.attempts

pub count-none :
    {A : Type 0} (p : A → Bool) (xs : List A) → All (λ a. p a ≡ false) xs → count p xs ≡ 0
unfolding count
count-none p [] all = refl
count-none p (x ∷ xs) all = rw all.0 (count-none p xs all.1)

module _ (requeues : Bool) (db after : Database)
    (v : Evolves requeues db.next_id db.attempts after) where
  Evolves-IsStarted : (t : Started) → IsStarted db t → IsStarted after t
  Evolves-IsStarted t h = (
    omega (arith, h.0, v.moves.later),
    All-map (OfRun db.next_id db.attempts) (λ a. of_run t.run_id a ≡ false) other after.attempts
        v.runs,
  )
    where
      other : (b : JobAttempt) → OfRun db.next_id db.attempts b → of_run t.run_id b ≡ false
      other b (inl new) = ground (arith, new.0, h.0)
      other b (inr (a, m, same)) =
          rw same.run (All-of_Memᴰ (λ a. of_run t.run_id a ≡ false) a db.attempts h.1 m)

  -- An operation that writes attempts only for new runs and for runs with attempts keeps started runs
  -- without any.
  pub Evolves-AllStarted : (ts : List Started) → All (IsStarted db) ts → All (IsStarted after) ts
  Evolves-AllStarted ts all = All-map (IsStarted db) (IsStarted after) Evolves-IsStarted ts all

module _ (clock : ℕ → ℕ) (job : Job) (db : Database) (ok : Ok db) where
  pub create_run-Ok : (scheduled_for : ℕ) → Ok (create_run clock job scheduled_for db)
  unfolding create_run new_run
  create_run-Ok scheduled_for =
      TablesOk-insert_run ok (new_run db.next_id job.id scheduled_for (clock db.next_id))
        (suc db.next_id) (omega arith) (omega arith)

  pub create_run-IsStarted :
      (scheduled_for : ℕ)
      → IsStarted
          (create_run clock job scheduled_for db)
          (record { job = job; run_id = db.next_id })
  unfolding create_run
  create_run-IsStarted scheduled_for = (
    omega arith,
    All-map (λ a. a.job_run_id < db.next_id) (λ a. of_run db.next_id a ≡ false)
        (λ a h. ground arith) db.attempts ok.attempts.runs_below,
  )

-- The run was there before, and its attempt is not.
pub create_run-Evolves :
    (clock : ℕ → ℕ) (job : Job) (scheduled_for : ℕ) (db : Database)
    → Evolves false db.next_id db.attempts (create_run clock job scheduled_for db)
unfolding create_run
create_run-Evolves clock job scheduled_for db = Evolves-same false db _ refl (omega arith)

module _ (clock : ℕ → ℕ) (scheduled_for : ℕ) (t : Started) (db : Database) where
  -- The two foreign keys hold, or nothing is written.
  pub try_first_attempt-cases :
      let after = try_first_attempt clock t.job t.run_id scheduled_for db in
      (after ≡ db)
      ⊎ ((0 < count (run_has_id t.run_id) db.runs)
          × (0 < count (job_has_id t.job.id) db.jobs)
          × (after ≡ create_first_attempt clock t.job t.run_id scheduled_for db))
  unfolding try_first_attempt
  try_first_attempt-cases =
      elim (Bool-cases
        (exists (run_has_id t.run_id) db.runs && exists (job_has_id t.job.id) db.jobs)) [
          | inr e ↦ inl (rw e refl)
          | inl e ↦
              let both = &&-true e in
              inr (
                exists-true→count (run_has_id t.run_id) db.runs both.0,
                exists-true→count (job_has_id t.job.id) db.jobs both.1,
                rw e refl,
              )
        ]

  pub try_first_attempt-Moves :
      Moves false db.next_id db.attempts (try_first_attempt clock t.job t.run_id scheduled_for db)
  unfolding create_first_attempt new_attempt
  try_first_attempt-Moves = elim try_first_attempt-cases [
    | inl e ↦ rw e (record { rows = Comes-refl false db.next_id db.attempts; later = omega arith })
    | inr (run, job, e) ↦ rw e (record {
      rows =
          Comes-insert false db.next_id db.attempts db.attempts _ (omega arith) refl
            (Comes-refl false db.next_id db.attempts);
      later = omega arith;
    })
  ]

  module _ (ok : Ok db) (h : IsStarted db t) where
    pub try_first_attempt-Ok : Ok (try_first_attempt clock t.job t.run_id scheduled_for db)
    unfolding create_first_attempt new_attempt
    try_first_attempt-Ok = elim try_first_attempt-cases [
      | inl e ↦ rw e ok
      | inr (run, job, e) ↦ rw e (
          TablesOk-insert_attempt ok _ (suc db.next_id) (omega arith) (omega arith)
            (omega (arith, h.0)) refl run job)
    ]

  -- The other runs are still without attempts.
  pub try_first_attempt-AllStarted :
      (ts : List Started)
      → All (IsStarted db) ts
      → All
          (IsStarted (try_first_attempt clock t.job t.run_id scheduled_for db))
          (delete (λ u. u.run_id == t.run_id) ts)
  unfolding create_first_attempt new_attempt
  try_first_attempt-AllStarted ts all =
      All-delete_kept (IsStarted db) _ (λ u. u.run_id == t.run_id) kept ts all
    where
      kept :
          (u : Started)
          → IsStarted db u
          → (u.run_id == t.run_id) ≡ false
          → IsStarted (try_first_attempt clock t.job t.run_id scheduled_for db) u
      kept u h other = elim try_first_attempt-cases [
        | inl e ↦ rw e h
        | inr (run, job, e) ↦ rw e (
          omega (arith, h.0),
          All-append (λ a. of_run u.run_id a ≡ false) db.attempts _ h.1 (ground (arith, other), tt),
        )
      ]
