-- ===== src/Scheduler/Watchdog/OnePass.antt =====
-- The runs that the watchdog closes, told in one pass over the table.
use job_schedular.Base.{
  ℕ, ◌+◌, ◌≤◌, ◌≡◌, refl, sym, subst, ap, ◌∙◌, Bool, true, false, some, ◌&&◌, List, [], ◌∷◌, Memᴰ,
  arith, ◌==◌, ==_iff, ==-refl, Bool-cases, inl, inr, if◌then◌else◌, All,
}
use job_schedular.Table.{select, count, exists, update}
use job_schedular.Table.Updates.{update-congr, update-eq_self, update-update}
use job_schedular.Table.Counts.{count-select}
use job_schedular.Table.Rows.{
  All-select, exists-of_mem, Memᴰ-select, Memᴰ-of_select, find?_of_unique, exists-none,
}
use mathlib.Core.Option.{some-injective}
use job_schedular.Models.{JobRun, JobAttempt, Database}
use job_schedular.Models.Status.{
  RunStatus, run_is_open, run_is_success, run_is_permanently_failed, attempt_is_success,
}
use job_schedular.Worker.Main.{of_run, finish_run}
use job_schedular.Scheduler.Watchdog.{is_over, close_run, close_runs, mark_permanently_failed}

-- SUCCESS if an attempt of the run succeeded.
abbrev pub verdict : List JobAttempt → RunStatus
verdict mine =
    if exists (λ a. attempt_is_success a.status) mine
    then RunStatus.success
    else RunStatus.permanently_failed

abbrev pub run_is_over : List JobAttempt → JobRun → Bool
run_is_over attempts r = is_over (select (of_run r.id) attempts)

-- The run with the verdict of its attempts, if none of them is QUEUED or RUNNING.
abbrev pub judged : ℕ → List JobAttempt → JobRun → JobRun
judged now attempts r =
    if run_is_over attempts r
    then record r { status = verdict (select (of_run r.id) attempts); finished_at = some now }
    else r

==_comm : (a b : ℕ) → (a == b) ≡ (b == a)
==_comm a b = ground arith

module _ (now : ℕ) where
  finish-eq-judge :
      (run : JobRun) (db : Database) (status : RunStatus)
      → status ≡ verdict (select (of_run run.id) db.attempts)
      → run_is_over db.attempts run ≡ true
      → finish_run status now run.id db
        ≡ record db { runs = update (λ r. run.id == r.id) (judged now db.attempts) db.runs }
  unfolding finish_run
  finish-eq-judge run db status v over =
      ap (λ (rs : List JobRun). record db { runs = rs })
        (update-congr _ _ _ _ db.runs λ r m.
          rw (==_comm run.id r.id) elim (Bool-cases (r.id == run.id)) [
            | inr e ↦ rw e refl
            | inl e ↦ rw (e, (==_iff r.id run.id).0 e, over, v) refl
          ])

  close_run_at :
      (run : JobRun) (db : Database)
      → run_is_open run.status ≡ true
      → close_run now run db ≡ (
        record db { runs = update (λ r. run.id == r.id) (judged now db.attempts) db.runs },
        if run_is_over db.attempts run then 1 else 0,
      )
  unfolding close_run
  close_run_at run db is_open = elim (Bool-cases (run_is_over db.attempts run)) [
    | inr live ↦ rw live (
        ap (λ (rs : List JobRun). (record db { runs = rs }, 0))
          (sym (
            update-eq_self _ _ db.runs λ r. elim (Bool-cases (run.id == r.id)) [
              | inr e ↦ rw e refl
              | inl e ↦ rw (e, sym ((==_iff run.id r.id).0 e), live) refl
            ])))
    | inl over ↦
        elim (Bool-cases
          (exists (λ a. attempt_is_success a.status) (select (of_run run.id) db.attempts))) [
            | inl s ↦
                rw (over, s, not_success)
                  (ap (λ (d : Database). (d, 1))
                    (finish-eq-judge run db RunStatus.success (rw s refl) over))
            | inr s ↦
                rw (over, s, not_failed)
                  (ap (λ (d : Database). (d, 1))
                    (finish-eq-judge run db RunStatus.permanently_failed (rw s refl) over))
          ]
  ]
    where
      not_success : run_is_success run.status ≡ false
      not_success = ground arith

      not_failed : run_is_permanently_failed run.status ≡ false
      not_failed = ground arith

  judged_again :
      (attempts : List JobAttempt) (r : JobRun)
      → judged now attempts (judged now attempts r) ≡ judged now attempts r
  judged_again attempts r = elim (Bool-cases (run_is_over attempts r)) [
    | inl e ↦ rw e (rw e refl)
    | inr e ↦ rw e (rw e refl)
  ]

  same_id : (attempts : List JobAttempt) (r : JobRun) → (judged now attempts r).id ≡ r.id
  same_id attempts r = ground arith

  -- The loop as one update, of the runs whose id is one of those in the list.
  close_runs_at :
      (runs : List JobRun) (db : Database)
      → All (λ r. run_is_open r.status ≡ true) runs
      → close_runs now runs db ≡ (
        record db {
          runs = update (λ r. exists (λ x. x.id == r.id) runs) (judged now db.attempts) db.runs;
        },
        count (run_is_over db.attempts) runs,
      )
  unfolding close_runs exists count
  close_runs_at [] db h =
      ap (λ (rs : List JobRun). (record db { runs = rs }, 0))
        (sym (update-eq_self _ _ db.runs λ r. refl))
  close_runs_at (run ∷ runs) db h =
      rw
        (
          close_run_at run db h.0,
          close_runs_at runs _ h.1,
          update-update (λ r. run.id == r.id) (λ r. exists (λ x. x.id == r.id) runs)
              (judged now db.attempts) (judged_again db.attempts)
              (λ r. rw (same_id db.attempts r) refl) db.runs,
        )
        (rw one_more refl)
    where
      one_more :
          (if run_is_over db.attempts run then 1 else 0) + count (run_is_over db.attempts) runs
          ≡ count (run_is_over db.attempts) (run ∷ runs)
      one_more = ground arith

-- The loop changes no other table.
pub mark_permanently_failed_runs :
    (now : ℕ) (db : Database)
    → (mark_permanently_failed now db).0
      ≡ record db { runs = (mark_permanently_failed now db).0.runs }
unfolding mark_permanently_failed
mark_permanently_failed_runs now db =
    rw
      (close_runs_at now (select (λ r. run_is_open r.status) db.runs) db
        (All-select (λ r. run_is_open r.status) db.runs))
      refl

-- Among rows with unique ids, the id of a row is one of those selected where the row is.
exists-select_id :
    (runs : List JobRun) (r : JobRun)
    → ((i : ℕ) → count (λ (x : JobRun). x.id == i) runs ≤ 1)
    → Memᴰ r runs
    → exists (λ x. x.id == r.id) (select (λ x. run_is_open x.status) runs) ≡ run_is_open r.status
exists-select_id runs r unique m = elim (Bool-cases (run_is_open r.status)) [
  | inl e ↦ rw e (
      exists-of_mem (λ x. x.id == r.id) _ r (Memᴰ-select (λ x. run_is_open x.status) runs r m e)
        (==-refl r.id))
  | inr e ↦ rw e (
      exists-none (λ x. x.id == r.id) _
        λ x mx. elim (Bool-cases (x.id == r.id)) [
          | inr other ↦ other
          | inl same ↦
              let found = Memᴰ-of_select (λ y. run_is_open y.status) runs x mx in
              let one : x ≡ r = some-injective x r (
                sym (find?_of_unique (λ y. y.id == r.id) runs x (unique r.id) found.0 same)
                ∙ find?_of_unique (λ y. y.id == r.id) runs r (unique r.id) m (==-refl r.id)) in
              absurd (true_false (sym (subst (λ y. run_is_open y.status ≡ true) one found.1) ∙ e))
        ])
]
  where
    true_false : true ≡ false → ⊥
    true_false e = cc

-- With unique ids, the watchdog's loop does what one update of all open runs does, which gives each run
-- without a QUEUED or RUNNING attempt the verdict of its attempts (SUCCESS if one of them succeeded,
-- PERMANENTLY_FAILED if none did) and the time; it returns the number of the runs that it changed.
pub mark_permanently_failed_at_once :
    (now : ℕ) (db : Database)
    → ((i : ℕ) → count (λ (r : JobRun). r.id == i) db.runs ≤ 1)
    → mark_permanently_failed now db ≡ (
      record db { runs = update (λ r. run_is_open r.status) (judged now db.attempts) db.runs },
      count (λ r. run_is_open r.status && run_is_over db.attempts r) db.runs,
    )
unfolding mark_permanently_failed
mark_permanently_failed_at_once now db unique =
    rw
      (
        close_runs_at now (select (λ r. run_is_open r.status) db.runs) db
            (All-select (λ r. run_is_open r.status) db.runs),
        count-select (run_is_over db.attempts) (λ r. run_is_open r.status) db.runs,
      )
      (ap
        (λ (rs : List JobRun). (
          record db { runs = rs },
          count (λ r. run_is_open r.status && run_is_over db.attempts r) db.runs,
        ))
        (update-congr _ _ _ _ db.runs λ r m. rw (exists-select_id db.runs r unique m) refl))
