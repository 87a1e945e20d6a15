-- ===== src/System/Completion.antt =====
-- What a successful result does to the attempt and to its run.
use job_schedular.Base.{
  ◌&&◌, not, ℕ, ◌<◌, ◌≡◌, refl, subst, inl, inr, true, false, some, List, Memᴰ, arith, ◌==◌, ==_iff,
  Option-cases, All, All-of_mem, All-of_Memᴰ,
}
use job_schedular.Table.{select, count, exists, find?, update}
use job_schedular.Table.Counts.{count_pos_of_Memᴰ}
use job_schedular.Table.Rows.{
  All-update_cases, exists-of_mem, Memᴰ-select, Memᴰ-update, find?-none→count,
}
use job_schedular.Models.{Job, JobRun, JobAttempt, Database}
use job_schedular.Models.Status.{RunStatus, run_is_success, attempt_is_success}
use job_schedular.Worker.Executor.{ExecutionResult, returned}
use job_schedular.Worker.Main.{
  completed, of_run, finish_run, settle_run, update_run_status, result_of, passes_fence,
  finished_with, handle_attempt_completion,
}
use job_schedular.System.Tables.{HasRun, run_has_id}
use job_schedular.System.Steps.{State, Reach, start}
use job_schedular.System.Steps.Safe.{start-IsSafe, Reach-IsSafe}

abbrev pub IsSuccessRun : ℕ → JobRun → Type 0
IsSuccessRun run_id r = (r.id == run_id && not (run_is_success r.status)) ≡ false

finish_run-IsSuccess :
    (now run_id : ℕ) (db : Database)
    → All (IsSuccessRun run_id) (finish_run RunStatus.success now run_id db).runs
unfolding finish_run
finish_run-IsSuccess now run_id db =
    All-update_cases (λ r. Unit {0}) (IsSuccessRun run_id) (λ r. r.id == run_id) _
      (λ r u e. ground arith) (λ r u e. ground arith) db.runs
      (All-of_mem (λ r. Unit {0}) db.runs (λ r m. tt))

-- A run that is there, with a successful attempt, ends as SUCCESS.
update_run_status-success :
    (now run_id : ℕ) (db : Database) (r : JobRun)
    → find? (run_has_id run_id) db.runs ≡ some r
    → exists (λ x. attempt_is_success x.status) (select (of_run run_id) db.attempts) ≡ true
    → update_run_status now run_id db ≡ (finish_run RunStatus.success now run_id db, completed)
unfolding update_run_status settle_run
update_run_status-success now run_id db r e h = rw (e, update_run_status) (rw h refl)

module _ (a b : JobAttempt) (res : ExecutionResult) (now settled : ℕ) (db : Database)
    (m : Memᴰ b db.attempts) (fence : passes_fence a b ≡ true) (run : b.job_run_id ≡ a.job_run_id)
    (ok : res.success ≡ true) (known : 0 < count (run_has_id b.job_run_id) db.runs) where
  abbrev rows : List JobAttempt
  rows = update (passes_fence a) (finished_with res now) db.attempts

  finished : Memᴰ (finished_with res now b) rows
  finished = Memᴰ-update (passes_fence a) (finished_with res now) db.attempts b m fence

  some_success :
      exists (λ x. attempt_is_success x.status) (select (of_run a.job_run_id) rows) ≡ true
  unfolding finished_with
  some_success =
      exists-of_mem (λ x. attempt_is_success x.status) _ (finished_with res now b)
        (Memᴰ-select (of_run a.job_run_id) rows (finished_with res now b) finished
          (rw ok ((==_iff b.job_run_id a.job_run_id).1 run)))
        (rw ok refl)

  completion-IsSuccess :
      let (after, completion) = handle_attempt_completion a (returned res) now settled db in
      (completion ≡ completed)
      × Memᴰ (finished_with res now b) after.attempts
      × All (IsSuccessRun a.job_run_id) after.runs
  unfolding handle_attempt_completion result_of finish_run
  completion-IsSuccess = elim (Option-cases (find? (run_has_id a.job_run_id) db.runs)) [
    | inl e ↦ absurd (
        omega (
          arith,
          subst (λ i. 0 < count (run_has_id i) db.runs) run known,
          find?-none→count (run_has_id a.job_run_id) db.runs e,
        ))
    | inr (r, e) ↦ rw nonzero (
        rw
          (update_run_status-success settled a.job_run_id (record db { attempts = rows }) r e
            some_success)
          (
            refl,
            finished,
            finish_run-IsSuccess settled a.job_run_id (record db { attempts = rows }),
          ))
  ]
    where
      nonzero : (count (passes_fence a) db.attempts == 0) ≡ false
      nonzero = ground (arith, count_pos_of_Memᴰ (passes_fence a) db.attempts b fence m)

-- In every reachable state, if a row of the table has the id, the token and the run of a claim, then a
-- successful result of that claim is accepted: the table has the row as finished, and the run is
-- SUCCESS.
pub Reach-completion :
    (jobs : List Job) (s : State)
    → Reach (start jobs) s
    → (a b : JobAttempt) (res : ExecutionResult) (now settled : ℕ) → Memᴰ b s.db.attempts
    → passes_fence a b ≡ true
    → b.job_run_id ≡ a.job_run_id
    → res.success ≡ true
    → let (after, completion) = handle_attempt_completion a (returned res) now settled s.db in
      (completion ≡ completed)
      × Memᴰ (finished_with res now b) after.attempts
      × All (IsSuccessRun a.job_run_id) after.runs
Reach-completion jobs s r a b res now settled m fence run ok =
    completion-IsSuccess a b res now settled s.db m fence run ok (
      All-of_Memᴰ (HasRun s.db.runs) b s.db.attempts
        (Reach-IsSafe (start-IsSafe jobs) r).tables.known_runs m)
