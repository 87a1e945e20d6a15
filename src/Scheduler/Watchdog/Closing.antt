-- ===== src/Scheduler/Watchdog/Closing.antt =====
-- Which runs the watchdog closes.
use job_schedular.Base.{
  ℕ, ◌≡◌, refl, subst, ◌⊎◌, inl, inr, true, false, ◌&&◌, List, [], ◌∷◌, arith, ◌==◌, ==_iff,
  ==-refl, Bool-cases, All, All-map, All-of_mem, Memᴰ,
}
use job_schedular.Table.{select, exists}
use job_schedular.Table.Rows.{All-update_cases, All-select, Memᴰ-select, exists-of_mem}
use job_schedular.Models.{JobRun, JobAttempt, Database}
use job_schedular.Models.Status.{
  RunStatus, run_is_open, run_is_success, run_is_permanently_failed, attempt_is_success,
}
use job_schedular.Worker.Main.{of_run, finish_run}
use job_schedular.Scheduler.Watchdog.{is_over, close_run, close_runs, mark_permanently_failed}

-- A run that is open has an attempt that is QUEUED or RUNNING.
abbrev pub IsSettled : List JobAttempt → JobRun → Type 0
IsSettled attempts r = (run_is_open r.status && is_over (select (of_run r.id) attempts)) ≡ false

-- The loop has passed the run, or its turn is still to come.
abbrev IsDone : List JobAttempt → List JobRun → JobRun → Type 0
IsDone attempts rest r = IsSettled attempts r ⊎ (exists (λ x. x.id == r.id) rest ≡ true)

abbrev AllDone : List JobAttempt → List JobRun → Database → Type 0
AllDone attempts rest db = (db.attempts ≡ attempts) × All (IsDone attempts rest) db.runs

-- A run with an attempt that is still active is settled.
waiting :
    (attempts : List JobAttempt) (r : JobRun)
    → is_over (select (of_run r.id) attempts) ≡ false
    → IsSettled attempts r
waiting attempts r h = ground (arith, h)

module _ (attempts : List JobAttempt) (run : JobRun) (rest : List JobRun) where
  passed :
      (r : JobRun)
      → ((run.id == r.id) ≡ true → IsSettled attempts r)
      → IsDone attempts (run ∷ rest) r
      → IsDone attempts rest r
  unfolding exists
  passed r h (inl s) = inl s
  passed r h (inr t) = elim (Bool-cases (run.id == r.id)) [
    | inl same ↦ inl (h same)
    | inr other ↦ inr (ground arith)
  ]

  -- A run that finishes is not open.
  finish-AllDone :
      (status : RunStatus) (now : ℕ) (db : Database)
      → run_is_open status ≡ false
      → AllDone attempts (run ∷ rest) db
      → AllDone attempts rest (finish_run status now run.id db)
  unfolding finish_run
  finish-AllDone status now db closed (same, all) = (
    same,
    All-update_cases (IsDone attempts (run ∷ rest)) (IsDone attempts rest) (λ r. r.id == run.id) _
        (λ r d e. inl (ground arith)) (λ r d e. passed r (λ t. absurd (other r e t)) d) db.runs all,
  )
    where
      other : (r : JobRun) → (r.id == run.id) ≡ false → (run.id == r.id) ≡ true → ⊥
      other r e t = ground (arith, (==_iff run.id r.id).0 t, ==-refl run.id)

  close_run-AllDone :
      (now : ℕ) (db : Database)
      → run_is_open run.status ≡ true
      → AllDone attempts (run ∷ rest) db
      → AllDone attempts rest (close_run now run db).0
  unfolding close_run
  close_run-AllDone now db is_open (same, all) = elim (Bool-cases (is_over mine)) [
    | inl over ↦ elim (Bool-cases (exists (λ a. attempt_is_success a.status) mine)) [
      | inl e ↦ rw (over, e, not_success) (finish-AllDone RunStatus.success now db refl (same, all))
      | inr e ↦
          rw (over, e, not_failed)
            (finish-AllDone RunStatus.permanently_failed now db refl (same, all))
    ]
    | inr live ↦ rw live (
      same,
      All-map (IsDone attempts (run ∷ rest)) (IsDone attempts rest)
          (λ r. passed r (λ t. waiting attempts r (
            subst (λ i. is_over (select (of_run i) attempts) ≡ false) ((==_iff run.id r.id).0 t)
              (still live))))
          db.runs all,
    )
  ]
    where
      mine : List JobAttempt
      mine = select (of_run run.id) db.attempts

      still : is_over mine ≡ false → is_over (select (of_run run.id) attempts) ≡ false
      still h = subst (λ xs. is_over (select (of_run run.id) xs) ≡ false) same h

      not_success : run_is_success run.status ≡ false
      not_success = ground arith

      not_failed : run_is_permanently_failed run.status ≡ false
      not_failed = ground arith

close_runs-AllDone :
    (attempts : List JobAttempt) (now : ℕ) (runs : List JobRun) (db : Database)
    → All (λ r. run_is_open r.status ≡ true) runs
    → AllDone attempts runs db
    → AllDone attempts [] (close_runs now runs db).0
unfolding close_runs
close_runs-AllDone attempts now [] db all_open d = d
close_runs-AllDone attempts now (run ∷ runs) db all_open d =
    close_runs-AllDone attempts now runs _ all_open.1
      (close_run-AllDone attempts run runs now db all_open.0 d)

-- After the watchdog has closed runs, every run that is still open has an attempt that is QUEUED or
-- RUNNING; the attempts are as they were.
pub mark_permanently_failed-IsSettled :
    (now : ℕ) (db : Database)
    → let after = (mark_permanently_failed now db).0 in
      (after.attempts ≡ db.attempts) × All (IsSettled db.attempts) after.runs
unfolding mark_permanently_failed exists
mark_permanently_failed-IsSettled now db =
    let done =
      close_runs-AllDone db.attempts now (select (λ r. run_is_open r.status) db.runs) db
        (All-select (λ r. run_is_open r.status) db.runs) (refl, All-of_mem _ db.runs waits) in
    (done.0, All-map (IsDone db.attempts []) (IsSettled db.attempts) settled _ done.1)
  where
    waits :
        (r : JobRun)
        → Memᴰ r db.runs
        → IsDone db.attempts (select (λ x. run_is_open x.status) db.runs) r
    waits r m = elim (Bool-cases (run_is_open r.status)) [
      | inl is_open ↦ inr (
          exists-of_mem (λ x. x.id == r.id) _ r
            (Memᴰ-select (λ x. run_is_open x.status) db.runs r m is_open) (==-refl r.id))
      | inr closed ↦ inl (ground arith)
    ]

    settled : (r : JobRun) → IsDone db.attempts [] r → IsSettled db.attempts r
    settled r (inl s) = s
    settled r (inr t) = cc
