-- ===== src/System/Expiring.antt =====
-- What the commit of the watchdog's transaction keeps, whatever others have committed since it read its row.
use job_schedular.Base.{
  ℕ, suc, ◌≤◌, ◌<◌, ◌≡◌, refl, inl, inr, Bool, true, false, ◌&&◌, &&-true, List, [], ◌∷◌, ◌++◌,
  Memᴰ, arith, ltb, ◌==◌, Bool-cases, All, All-map, All-append, All-of_Memᴰ, none,
}
use job_schedular.Table.{count, exists, delete}
use job_schedular.Table.Counts.{exists-true→count}
use job_schedular.Table.Rows.{All-update, All-delete}
use job_schedular.Models.{Job, JobAttempt, Database, new_attempt}
use job_schedular.Worker.Main.{of_run}
use job_schedular.Scheduler.Watchdog.{timed_out_at}
use job_schedular.Scheduler.Watchdog.Transaction.{Expiring, timed_out_in, retried_in, commit_expiry}
use job_schedular.System.Tables.{
  Ok, TablesOk-update_attempts, TablesOk-insert_attempt, run_has_id, job_has_id,
}
use job_schedular.System.Started.{Started, IsStarted}
use job_schedular.System.Lifecycle.{Moves, Comes, Comes-refl, Comes-update, Comes-insert}

-- The run of the row was there when it was read, and is none that a trigger has only begun.
abbrev pub IsPending : ℕ → List Started → Expiring → Type 0
IsPending next started e =
    (e.row.job_run_id < next) × All (λ t. of_run t.run_id e.row ≡ false) started

pub IsPending-later :
    (next n : ℕ) (started : List Started)
    → next ≤ n
    → (es : List Expiring) → All (IsPending next started) es
    → All (IsPending n started) es
IsPending-later next n started later es all =
    All-map (IsPending next started) (IsPending n started) (λ e h. (omega (arith, later, h.0), h.1))
      es all

pub All-without :
    {A : Type 0} (P : A → Type 0) (before : List A) (e : A) (after : List A)
    → All P (before ++ e ∷ after)
    → P e × All P (before ++ after)
All-without P [] e after all = all
All-without P (x ∷ before) e after all =
    let rest = All-without P before e after all.1 in (rest.0, (all.0, rest.1))

pub All-with :
    {A : Type 0} (P : A → Type 0) (before : List A) (e : A) (after : List A)
    → P e
    → All P (before ++ after)
    → All P (before ++ e ∷ after)
All-with P [] e after p all = (p, all)
All-with P (x ∷ before) e after p all = (all.0, All-with P before e after p all.1)

-- The three ends of the transaction.
pub data IsCommitted (clock : ℕ → ℕ) (row : JobAttempt) (total : ℕ) (job : Job) (now : ℕ)
    (db after : Database) : Type 0 where
  rolled_back : after ≡ db → IsCommitted clock row total job now db after
  ended : after ≡ timed_out_in row now db → IsCommitted clock row total job now db after
  retried :
      total < job.retry_limit
      → 0 < count (run_has_id row.job_run_id) db.runs
      → 0 < count (job_has_id job.id) db.jobs
      → after ≡ retried_in clock row total job now (timed_out_in row now db)
      → IsCommitted clock row total job now db after

module _ (clock : ℕ → ℕ) (row : JobAttempt) (total : ℕ) (job : Job) (now : ℕ) (db : Database) where
  less : ltb total job.retry_limit ≡ true → total < job.retry_limit
  less e = ground arith

  pub commit_expiry-IsCommitted :
      IsCommitted clock row total job now db (commit_expiry clock row total job now db)
  unfolding commit_expiry
  commit_expiry-IsCommitted = elim (Bool-cases (ltb total job.retry_limit)) [
    | inr e ↦ rw e (IsCommitted.ended refl)
    | inl e ↦
        elim (Bool-cases
          (exists (run_has_id row.job_run_id) db.runs && exists (job_has_id job.id) db.jobs)) [
            | inr f ↦ rw e (rw f (IsCommitted.rolled_back refl))
            | inl f ↦
                let both = &&-true f in
                rw e (
                  rw f (
                    IsCommitted.retried (less e)
                      (exists-true→count (run_has_id row.job_run_id) db.runs both.0)
                      (exists-true→count (job_has_id job.id) db.jobs both.1) refl))
          ]
  ]

  timed_out_in-Ok : Ok db → Ok (timed_out_in row now db)
  unfolding timed_out_at
  timed_out_in-Ok ok =
      TablesOk-update_attempts ok (λ a. a.id == row.id) (timed_out_at now) (λ b. refl) (λ b. refl)
        (λ b. refl) (λ b m s e. ground arith)

  committed-Ok :
      (after : Database)
      → IsCommitted clock row total job now db after
      → Ok db
      → row.job_run_id < db.next_id
      → Ok after
  unfolding new_attempt
  committed-Ok after (rolled_back e) ok below = rw e ok
  committed-Ok after (ended e) ok below = rw e (timed_out_in-Ok ok)
  committed-Ok after (retried few run known e) ok below = rw e (
      TablesOk-insert_attempt (timed_out_in-Ok ok) _ (suc db.next_id) (omega arith) (omega arith)
        (omega (arith, below)) refl run known)

  pub commit_expiry-Ok :
      Ok db → row.job_run_id < db.next_id → Ok (commit_expiry clock row total job now db)
  commit_expiry-Ok ok below = committed-Ok _ commit_expiry-IsCommitted ok below

  timed_out_in-rows : All (Comes false db.next_id db.attempts) (timed_out_in row now db).attempts
  unfolding timed_out_at
  timed_out_in-rows =
      Comes-update false db.next_id db.attempts (λ a. a.id == row.id) (timed_out_at now)
        (λ a m h. record { id = refl; run = refl; number = refl; status = refl })

  committed-Moves :
      (after : Database)
      → IsCommitted clock row total job now db after
      → Moves false db.next_id db.attempts after
  unfolding new_attempt
  committed-Moves after (rolled_back e) =
      rw e (record { rows = Comes-refl false db.next_id db.attempts; later = omega arith })
  committed-Moves after (ended e) = rw e (record { rows = timed_out_in-rows; later = omega arith })
  committed-Moves after (retried few run known e) = rw e (record {
    rows = Comes-insert false db.next_id db.attempts _ _ (omega arith) refl timed_out_in-rows;
    later = omega arith;
  })

  pub commit_expiry-Moves :
      Moves false db.next_id db.attempts (commit_expiry clock row total job now db)
  commit_expiry-Moves = committed-Moves _ commit_expiry-IsCommitted

  timed_out_in-none :
      (i : ℕ)
      → All (λ a. of_run i a ≡ false) db.attempts
      → All (λ a. of_run i a ≡ false) (timed_out_in row now db).attempts
  unfolding timed_out_at
  timed_out_in-none i all =
      All-update (λ a. of_run i a ≡ false) (λ a. a.id == row.id) (timed_out_at now) (λ a h e. h)
        db.attempts all

  committed-IsStarted :
      (after : Database)
      → IsCommitted clock row total job now db after
      → (t : Started) → of_run t.run_id row ≡ false
      → IsStarted db t
      → IsStarted after t
  unfolding new_attempt
  committed-IsStarted after (rolled_back e) t other h = rw e h
  committed-IsStarted after (ended e) t other h = rw e (h.0, timed_out_in-none t.run_id h.1)
  committed-IsStarted after (retried few run known e) t other h = rw e (
    omega (arith, h.0),
    All-append (λ a. of_run t.run_id a ≡ false) (timed_out_in row now db).attempts _
        (timed_out_in-none t.run_id h.1) (other, tt),
  )

  pub commit_expiry-AllStarted :
      (ts : List Started)
      → All (λ t. of_run t.run_id row ≡ false) ts
      → All (IsStarted db) ts
      → All (IsStarted (commit_expiry clock row total job now db)) ts
  commit_expiry-AllStarted [] others all = tt
  commit_expiry-AllStarted (t ∷ ts) others all = (
    committed-IsStarted _ commit_expiry-IsCommitted t others.0 all.0,
    commit_expiry-AllStarted ts others.1 all.1,
  )

-- A row of the table belongs to no run that has no attempts.
pub looked-IsPending :
    (db : Database) (started : List Started) (row : JobAttempt)
    → Ok db
    → All (IsStarted db) started
    → Memᴰ row db.attempts
    → IsPending db.next_id started (record { row = row; total_attempts = none })
looked-IsPending db started row ok all m = (
  All-of_Memᴰ (λ a. a.job_run_id < db.next_id) row db.attempts ok.attempts.runs_below m,
  All-map (IsStarted db) (λ t. of_run t.run_id row ≡ false)
      (λ t h. All-of_Memᴰ (λ a. of_run t.run_id a ≡ false) row db.attempts h.1 m) started all,
)

-- A new run is of no row that was read before.
pub triggered-IsPending :
    (next n : ℕ) (started : List Started) (t : Started)
    → t.run_id ≡ next
    → next ≤ n
    → (es : List Expiring) → All (IsPending next started) es
    → All (IsPending n (t ∷ started)) es
triggered-IsPending next n started t new later es all =
    All-map (IsPending next started) (IsPending n (t ∷ started))
      (λ e h. (omega (arith, later, h.0), (ground (arith, new, h.0), h.1))) es all

pub settled-IsPending :
    (next n : ℕ) (started : List Started) (q : Started → Bool)
    → next ≤ n
    → (es : List Expiring) → All (IsPending next started) es
    → All (IsPending n (delete q started)) es
settled-IsPending next n started q later es all =
    All-map (IsPending next started) (IsPending n (delete q started))
      (λ e h.
        (omega (arith, later, h.0), All-delete (λ t. of_run t.run_id e.row ≡ false) q started h.1))
      es all
