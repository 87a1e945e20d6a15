-- ===== src/System/Failure.antt =====
-- What a result of a live attempt does to its run.
use job_schedular.Base.{
  ◌&&◌, some, ℕ, ◌≤◌, ◌<◌, ◌≡◌, refl, subst, inl, inr, true, false, List, Memᴰ, arith, ◌==◌,
  ==-refl, Option-cases, Bool-cases, All, All-of_mem, All-of_Memᴰ, length,
}
use job_schedular.Table.{select, count, exists, find?, update}
use job_schedular.Table.Counts.{
  length-update, count_pos_of_Memᴰ, count-update-lt, count-select, exists-true→count,
}
use job_schedular.Table.Rows.{All-update_cases, find?-none→count}
use job_schedular.Models.{Job, JobRun, JobAttempt, Database, is_active_of}
use job_schedular.Models.Status.{RunStatus, run_is_open, attempt_is_success, attempt_is_active}
use job_schedular.Worker.Executor.{ExecutionResult, returned}
use job_schedular.Worker.Main.{
  completed, of_run, finish_run, settle_run, update_run_status, result_of, passes_fence,
  finished_with, handle_attempt_completion,
}
use job_schedular.System.Tables.{HasRun, Ok, run_has_id}
use job_schedular.System.Steps.{State, start}
use job_schedular.System.Alone.{ReachAlone, Reach-of_alone}
use job_schedular.System.Safety.{Reach-one_active}
use job_schedular.System.Steps.Safe.{start-IsSafe, Reach-IsSafe}

abbrev pub IsClosedRun : ℕ → JobRun → Type 0
IsClosedRun run_id r = (r.id == run_id && run_is_open r.status) ≡ false

finish_run-IsClosed :
    (status : RunStatus) (now run_id : ℕ) (db : Database)
    → run_is_open status ≡ false
    → All (IsClosedRun run_id) (finish_run status now run_id db).runs
unfolding finish_run
finish_run-IsClosed status now run_id db closed =
    All-update_cases (λ r. Unit {0}) (IsClosedRun run_id) (λ r. r.id == run_id) _
      (λ r u e. ground (arith, closed)) (λ r u e. ground arith) db.runs
      (All-of_mem (λ r. Unit {0}) db.runs (λ r m. tt))

-- A run that is there and has no active attempt is closed, whatever its attempts ended in.
update_run_status-IsClosed :
    (now run_id : ℕ) (db : Database) (r : JobRun)
    → find? (run_has_id run_id) db.runs ≡ some r
    → count (is_active_of run_id) db.attempts ≡ 0
    → let (after, completion) = update_run_status now run_id db in
      (completion ≡ completed)
      × (after.attempts ≡ db.attempts)
      × All (IsClosedRun run_id) after.runs
unfolding update_run_status settle_run
update_run_status-IsClosed now run_id db r e idle =
    rw (e, update_run_status)
      (elim (Bool-cases
        (exists (λ x. attempt_is_success x.status) (select (of_run run_id) db.attempts))) [
          | inl good ↦ rw good (
            refl,
            kept RunStatus.success,
            finish_run-IsClosed RunStatus.success now run_id db refl,
          )
          | inr bad ↦
              rw (bad, none_active)
                (
                  refl,
                  kept RunStatus.permanently_failed,
                  finish_run-IsClosed RunStatus.permanently_failed now run_id db refl,
                )
        ])
  where
    kept : (status : RunStatus) → (finish_run status now run_id db).attempts ≡ db.attempts
    kept status = unfold finish_run in refl

    none_active :
        exists (λ a. attempt_is_active a.status) (select (of_run run_id) db.attempts) ≡ false
    none_active =
        elim (Bool-cases
          (exists (λ a. attempt_is_active a.status) (select (of_run run_id) db.attempts))) [
            | inr e ↦ e
            | inl e ↦ absurd (
                omega (
                  arith,
                  idle,
                  exists-true→count (λ a. attempt_is_active a.status)
                      (select (of_run run_id) db.attempts) e,
                  count-select (λ a. attempt_is_active a.status) (of_run run_id) db.attempts,
                ))
          ]

module _ (a b : JobAttempt) (res : ExecutionResult) (now settled : ℕ) (db : Database) (ok : Ok db)
    (one : (i : ℕ) → count (is_active_of i) db.attempts ≤ 1) (m : Memᴰ b db.attempts)
    (live : attempt_is_active b.status ≡ true) (fence : passes_fence a b ≡ true)
    (run : b.job_run_id ≡ a.job_run_id) where
  abbrev rows : List JobAttempt
  rows = update (passes_fence a) (finished_with res now) db.attempts

  rows_idle : count (is_active_of a.job_run_id) rows ≡ 0
  rows_idle = omega (
    arith,
    one a.job_run_id,
    count-update-lt (is_active_of a.job_run_id) (passes_fence a) (finished_with res now)
        (λ c e. unfold finished_with in ground arith) db.attempts b m fence
        (rw (run, ==-refl a.job_run_id) live),
  )

  failure-IsClosed :
      let (after, completion) = handle_attempt_completion a (returned res) now settled db in
      (completion ≡ completed)
      × (length after.attempts ≡ length db.attempts)
      × (count (is_active_of a.job_run_id) after.attempts ≡ 0)
      × All (IsClosedRun a.job_run_id) after.runs
  unfolding handle_attempt_completion result_of
  failure-IsClosed = elim (Option-cases (find? (run_has_id a.job_run_id) db.runs)) [
    | inl e ↦ absurd (
        omega (
          arith,
          subst (λ i. 0 < count (run_has_id i) db.runs) run
              (All-of_Memᴰ (HasRun db.runs) b db.attempts ok.known_runs m),
          find?-none→count (run_has_id a.job_run_id) db.runs e,
        ))
    | inr (r, e) ↦
        let closed =
          update_run_status-IsClosed settled a.job_run_id (record db { attempts = rows }) r e
            rows_idle in
        rw nonzero (
          closed.0,
          rw closed.1 (length-update (passes_fence a) (finished_with res now) db.attempts),
          rw closed.1 rows_idle,
          closed.2,
        )
  ]
    where
      nonzero : (count (passes_fence a) db.attempts == 0) ≡ false
      nonzero = ground (arith, count_pos_of_Memᴰ (passes_fence a) db.attempts b fence m)

-- In every state that is reached with one scheduler, if a QUEUED or RUNNING row of the table has
-- the id, the token and the run of a claim, then any result of that claim, failed or not, closes the run at once: no attempt is added, the run
-- has no QUEUED or RUNNING attempt left, and it is not QUEUED or RUNNING itself.
pub Reach-closes :
    (jobs : List Job) (s : State)
    → ReachAlone (start jobs) s
    → (a b : JobAttempt) (res : ExecutionResult) (now settled : ℕ) → Memᴰ b s.db.attempts
    → attempt_is_active b.status ≡ true
    → passes_fence a b ≡ true
    → b.job_run_id ≡ a.job_run_id
    → let (after, completion) = handle_attempt_completion a (returned res) now settled s.db in
      (completion ≡ completed)
      × (length after.attempts ≡ length s.db.attempts)
      × (count (is_active_of a.job_run_id) after.attempts ≡ 0)
      × All (IsClosedRun a.job_run_id) after.runs
Reach-closes jobs s r a b res now settled m live fence run =
    failure-IsClosed a b res now settled s.db
      (Reach-IsSafe (start-IsSafe jobs) (Reach-of_alone r)).tables
      (λ i. (Reach-one_active jobs s r i).0) m live fence run
