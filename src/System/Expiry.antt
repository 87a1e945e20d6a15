-- ===== src/System/Expiry.antt =====
-- What the watchdog does with one attempt, in a database whose rows are sound.
use job_schedular.Base.{
  ℕ, ◌≤◌, ◌<◌, ◌≡◌, refl, subst, inl, inr, Bool, true, false, ◌&&◌, Option, none, some, List, [],
  ◌∷◌, Memᴰ, arith, ltb, leb, ◌==◌, ==_iff, Bool-cases, Option-cases, All, All-append, All-of_mem,
  All-of_Memᴰ,
}
use job_schedular.Table.{count, find?, update}
use job_schedular.Table.Counts.{count-update-eq, count-insert}
use job_schedular.Table.Rows.{find?-eq-some, All-update_cases, find?-none→count}
use job_schedular.Models.{Job, JobAttempt, Database, new_attempt}
use job_schedular.Models.Status.{attempt_is_running}
use job_schedular.Worker.Heartbeat.{lease_lt}
use job_schedular.Worker.Main.{of_run}
use job_schedular.Scheduler.Watchdog.{
  Expiry, rescheduled, not_rescheduled, does_not_exist, type_error, timed_out_at, retry_attempt,
  expire_for, expire_lease, expire_row, expire_found, handle_expired_attempt,
}
use job_schedular.System.Attempts.{row_of_id, has_id}
use job_schedular.System.Tables.{Ok, HasJob, job_has_id}

abbrev pub is_expired : ℕ → JobAttempt → Bool
is_expired now a = attempt_is_running a.status && lease_lt now a.lease_expires_at

abbrev pub is_exception : Expiry → Bool
is_exception rescheduled = false
is_exception not_rescheduled = false
is_exception does_not_exist = true
is_exception type_error = true

-- What is expired in the second table was so in the first, and is not the row with the id.
abbrev pub IsLeft : ℕ → ℕ → List JobAttempt → JobAttempt → Type 0
IsLeft now id xs b = is_expired now b ≡ true → Memᴰ b xs × ((b.id == id) ≡ false)

pub record IsHandled (now id : ℕ) (xs : List JobAttempt) (r : Database × Expiry) : Type 0 where
  pub succeeds : is_exception r.1 ≡ false
  pub left : All (IsLeft now id xs) r.0.attempts
  pub keeps : (i : ℕ) → count (has_id i) xs ≤ count (has_id i) r.0.attempts

module _ (clock : ℕ → ℕ) (row : JobAttempt) (now : ℕ) (db : Database) (ok : Ok db)
    (m : Memᴰ row db.attempts) where
  -- A row that is not expired is left as it is.
  still-IsHandled :
      is_expired now row ≡ false → IsHandled now row.id db.attempts (db, not_rescheduled)
  still-IsHandled e = record {
    succeeds = refl;
    left = All-of_mem (IsLeft now row.id db.attempts) db.attempts (λ b mb x. (mb, other b mb x));
    keeps = λ i. omega arith;
  }
    where
      other :
          (b : JobAttempt) → Memᴰ b db.attempts → is_expired now b ≡ true → (b.id == row.id) ≡ false
      other b mb x = elim (Bool-cases (b.id == row.id)) [
        | inr d ↦ d
        | inl same ↦
            let eq = row_of_id ok.attempts b row mb m ((==_iff b.id row.id).0 same) in
            absurd (ground (arith, subst (λ r. is_expired now r ≡ true) eq x))
      ]

  abbrev timed_out : List JobAttempt
  timed_out = update (λ a. a.id == row.id) (timed_out_at now) db.attempts

  timed_out-IsLeft : All (IsLeft now row.id db.attempts) timed_out
  unfolding timed_out_at
  timed_out-IsLeft =
      All-update_cases (λ b. Memᴰ b db.attempts) (IsLeft now row.id db.attempts) _
        (timed_out_at now) (λ b mb e x. absurd (ground arith)) (λ b mb e x. (mb, e)) db.attempts
        (All-of_mem (λ b. Memᴰ b db.attempts) db.attempts (λ b mb. mb))

  timed_out-count : (i : ℕ) → count (has_id i) timed_out ≡ count (has_id i) db.attempts
  unfolding timed_out_at
  timed_out-count i =
      count-update-eq (has_id i) (λ a. a.id == row.id) (timed_out_at now) (λ b e. refl) db.attempts

  retry-IsHandled :
      (job : Job)
      → IsHandled now row.id db.attempts
          (retry_attempt clock row job now (record db { attempts = timed_out }))
  unfolding retry_attempt new_attempt
  retry-IsHandled job =
      elim (Bool-cases (ltb (count (of_run row.job_run_id) timed_out) job.retry_limit)) [
        | inl e ↦ rw e (record {
          succeeds = refl;
          left =
              All-append (IsLeft now row.id db.attempts) timed_out (_ ∷ []) timed_out-IsLeft
                ((λ x. absurd (ground arith)), tt);
          keeps = λ i. omega (arith, timed_out-count i, count-insert (has_id i) _ timed_out);
        })
        | inr e ↦ rw e (record {
          succeeds = refl;
          left = timed_out-IsLeft;
          keeps = λ i. omega (arith, timed_out-count i);
        })
      ]

  expire_for-IsHandled :
      (job : Option Job)
      → find? (job_has_id row.job_id) db.jobs ≡ job
      → IsHandled now row.id db.attempts (expire_for clock row now db job)
  unfolding expire_for
  expire_for-IsHandled none e = absurd (
      omega (
        arith,
        All-of_Memᴰ (HasJob db.jobs) row db.attempts ok.known_jobs m,
        find?-none→count (job_has_id row.job_id) db.jobs e,
      ))
  expire_for-IsHandled (some job) e = retry-IsHandled job

  expire_lease-IsHandled :
      (lease : Option ℕ)
      → row.lease_expires_at ≡ lease
      → attempt_is_running row.status ≡ true
      → IsHandled now row.id db.attempts (expire_lease clock row now db lease)
  unfolding expire_lease
  expire_lease-IsHandled none e running =
      absurd (ground (arith, e, All-of_Memᴰ _ row db.attempts ok.attempts.sound m))
  expire_lease-IsHandled (some lease) e running = elim (Bool-cases (leb now lease)) [
    | inl valid ↦ rw valid (still-IsHandled (ground (arith, e)))
    | inr expired ↦ rw expired (expire_for-IsHandled _ refl)
  ]

  expire_row-IsHandled : IsHandled now row.id db.attempts (expire_row clock row now db)
  unfolding expire_row
  expire_row-IsHandled = elim (Bool-cases (attempt_is_running row.status)) [
    | inl running ↦ rw running (expire_lease-IsHandled row.lease_expires_at refl running)
    | inr idle ↦ rw idle (still-IsHandled (ground arith))
  ]

pub handle_expired_attempt-IsHandled :
    (clock : ℕ → ℕ) (x : JobAttempt) (now : ℕ) (db : Database)
    → Ok db
    → 0 < count (has_id x.id) db.attempts
    → IsHandled now x.id db.attempts (handle_expired_attempt clock x now db)
unfolding handle_expired_attempt expire_found
handle_expired_attempt-IsHandled clock x now db ok there =
    elim (Option-cases (find? (has_id x.id) db.attempts)) [
      | inl e ↦ absurd (omega (arith, find?-none→count (has_id x.id) db.attempts e))
      | inr (row, e) ↦
          let found = find?-eq-some (has_id x.id) db.attempts row e in
          rw e (
            subst (λ i. IsHandled now i db.attempts (expire_row clock row now db))
              ((==_iff row.id x.id).0 found.0) (expire_row-IsHandled clock row now db ok found.1))
    ]
