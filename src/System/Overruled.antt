-- ===== src/System/Overruled.antt =====
-- A verdict on a run that was decided on before an attempt succeeded, and is saved after it.
use job_schedular.Base.{
  ℕ, ◌≡◌, refl, sym, subst, ◌⊎◌, inl, inr, true, false, List, ◌∷◌, ◌++◌, Memᴰ, ◌==◌, All,
  All-of_mem,
}
use job_schedular.Table.Rows.{All-update_cases}
use job_schedular.Models.{Job, JobRun, JobAttempt, Database}
use job_schedular.Worker.Executor.{ExecutionResult, returned}
use job_schedular.Worker.Main.{handle_attempt_completion, finish_run, passes_fence, finished_with}
use job_schedular.System.Verdicts.{Verdict}
use job_schedular.System.Steps.{State, Step, Reach, here, next, start}
use job_schedular.System.Completion.{IsSuccessRun, Reach-completion}
use job_schedular.System.Processes.{callback-Reach}

-- The run has the status of the verdict.
abbrev pub IsOverruled : Verdict → JobRun → Type 0
IsOverruled v r = ((r.id == v.run_id) ≡ false) ⊎ (r.status ≡ v.status)

finish_run-IsOverruled :
    (v : Verdict) (now : ℕ) (db : Database)
    → All (IsOverruled v) (finish_run v.status now v.run_id db).runs
unfolding finish_run
finish_run-IsOverruled v now db =
    All-update_cases (λ r. Unit {0}) (IsOverruled v) (λ r. r.id == v.run_id) _ (λ r u e. inr refl)
      (λ r u e. inl e) db.runs (All-of_mem (λ r. Unit {0}) db.runs (λ r m. tt))

finish_run-attempts :
    (v : Verdict) (now : ℕ) (db : Database)
    → (finish_run v.status now v.run_id db).attempts ≡ db.attempts
unfolding finish_run
finish_run-attempts v now db = refl

-- If a verdict on a run is decided on and not saved yet, then a worker that reports the success of an attempt of
-- this run reaches a state in which the attempt is SUCCESS, the run is SUCCESS and the verdict is still to be
-- saved; and from there a state is reached in which the attempt is as before, but the run has the status of the
-- verdict: PERMANENTLY_FAILED, if that is what it was.
pub Reach-IsOverruled :
    (jobs : List Job) (s : State)
    → Reach (start jobs) s
    → (a b : JobAttempt) (res : ExecutionResult) (now settled saved_at : ℕ) → Memᴰ a s.handed
    → Memᴰ b s.db.attempts
    → passes_fence a b ≡ true
    → b.job_run_id ≡ a.job_run_id
    → res.success ≡ true
    → (v : Verdict) (before after : List Verdict) → s.verdicts ≡ before ++ v ∷ after
    → v.run_id ≡ a.job_run_id
    → (u t : State) × Reach s u
      × Memᴰ (finished_with res now b) u.db.attempts
      × All (IsSuccessRun v.run_id) u.db.runs
      × (u.verdicts ≡ before ++ v ∷ after)
      × Reach u t
      × Memᴰ (finished_with res now b) t.db.attempts
      × All (IsOverruled v) t.db.runs
Reach-IsOverruled jobs s r a b res now settled saved_at given m fence run ok v before after e
      of_it =
    let done = Reach-completion jobs s r a b res now settled m fence run ok in
    (
      _,
      _,
      callback-Reach s a (returned res) now settled given,
      done.1,
      subst
          (λ i.
            All (IsSuccessRun i)
              (handle_attempt_completion a (returned res) now settled s.db).0.runs)
          (sym of_it) done.2,
      e,
      next here (Step.saves saved_at v before after e),
      subst (Memᴰ (finished_with res now b)) (sym (finish_run-attempts v saved_at _)) done.1,
      finish_run-IsOverruled v saved_at _,
    )
