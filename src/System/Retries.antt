-- ===== src/System/Retries.antt =====
-- The watchdog keeps the tables in order when it times an attempt out and retries it.
use job_schedular.Base.{
  ℕ, suc, ◌<◌, ◌≡◌, refl, inl, inr, true, Option, none, some, List, Memᴰ, arith, ◌==◌, ==-refl, ltb,
  leb, Bool-cases, All-of_Memᴰ,
}
use job_schedular.Table.{count, find?, update}
use job_schedular.Table.Counts.{count_pos_of_Memᴰ}
use job_schedular.Table.Rows.{find?-eq-some}
use job_schedular.Models.{Job, JobAttempt, Database, new_attempt}
use job_schedular.Models.Status.{attempt_is_running}
use job_schedular.Worker.Main.{of_run}
use job_schedular.Scheduler.Watchdog.{
  timed_out_at, retry_attempt, expire_for, expire_lease, expire_row, expire_found,
  handle_expired_attempt,
}
use job_schedular.System.Attempts.{is_sound}
use job_schedular.System.Tables.{
  TablesOk-update_attempts, TablesOk-insert_attempt, Ok, HasRun, job_has_id,
}

module _ (row : JobAttempt) (now : ℕ) (db : Database) (ok : Ok db) (m : Memᴰ row db.attempts)
    (running : attempt_is_running row.status ≡ true) where
  abbrev timed_out_rows : List JobAttempt
  timed_out_rows = update (λ a. a.id == row.id) (timed_out_at now) db.attempts

  timed_out-Ok : Ok (record db { attempts = timed_out_rows })
  unfolding timed_out_at
  timed_out-Ok =
      TablesOk-update_attempts ok (λ a. a.id == row.id) (timed_out_at now) (λ b. refl) (λ b. refl)
        (λ b. refl) still
    where
      still :
          (b : JobAttempt)
          → Memᴰ b db.attempts
          → is_sound b ≡ true
          → b.id == row.id ≡ true
          → is_sound (timed_out_at now b) ≡ true
      still b mb s e = ground arith

  retry_attempt-Ok :
      (clock : ℕ → ℕ) (job : Job)
      → 0 < count (job_has_id job.id) db.jobs
      → Ok (retry_attempt clock row job now (record db { attempts = timed_out_rows })).0
  unfolding retry_attempt new_attempt
  retry_attempt-Ok clock job known =
      elim (Bool-cases (ltb (count (of_run row.job_run_id) timed_out_rows) job.retry_limit)) [
        | inl e ↦ rw e (
            TablesOk-insert_attempt timed_out-Ok _ (suc db.next_id) (omega arith) (omega arith)
              (omega (
                arith,
                All-of_Memᴰ (λ a. a.job_run_id < db.next_id) row db.attempts ok.attempts.runs_below
                    m,
              ))
              refl (All-of_Memᴰ (HasRun db.runs) row db.attempts ok.known_runs m) known)
        | inr e ↦ rw e timed_out-Ok
      ]

  expire_for-Ok :
      (clock : ℕ → ℕ) (job : Option Job)
      → find? (λ j. j.id == row.job_id) db.jobs ≡ job
      → Ok (expire_for clock row now db job).0
  unfolding expire_for
  expire_for-Ok clock none e = ok
  expire_for-Ok clock (some job) e =
      let found = find?-eq-some (λ j. j.id == row.job_id) db.jobs job e in
      retry_attempt-Ok clock job
        (count_pos_of_Memᴰ (job_has_id job.id) db.jobs job (==-refl job.id) found.1)

  expire_lease-Ok : (clock : ℕ → ℕ) (lease : Option ℕ) → Ok (expire_lease clock row now db lease).0
  unfolding expire_lease
  expire_lease-Ok clock none = ok
  expire_lease-Ok clock (some lease) = elim (Bool-cases (leb now lease)) [
    | inl e ↦ rw e ok
    | inr e ↦ rw e (expire_for-Ok clock _ refl)
  ]

expire_row-Ok :
    (clock : ℕ → ℕ) (row : JobAttempt) (now : ℕ) (db : Database)
    → Ok db
    → Memᴰ row db.attempts
    → Ok (expire_row clock row now db).0
unfolding expire_row
expire_row-Ok clock row now db ok m = elim (Bool-cases (attempt_is_running row.status)) [
  | inr idle ↦ rw idle ok
  | inl running ↦ rw running (expire_lease-Ok row now db ok m running clock row.lease_expires_at)
]

pub handle_expired_attempt-Ok :
    (clock : ℕ → ℕ) (attempt : JobAttempt) (now : ℕ) (db : Database)
    → Ok db
    → Ok (handle_expired_attempt clock attempt now db).0
unfolding handle_expired_attempt
handle_expired_attempt-Ok clock attempt now db ok =
    on_row (find? (λ a. a.id == attempt.id) db.attempts) refl
  where
    on_row :
        (row : Option JobAttempt)
        → find? (λ a. a.id == attempt.id) db.attempts ≡ row
        → Ok (expire_found clock now db row).0
    on_row none e = unfold expire_found in ok
    on_row (some row) e =
        unfold expire_found in
        expire_row-Ok clock row now db ok
          (find?-eq-some (λ a. a.id == attempt.id) db.attempts row e).1
