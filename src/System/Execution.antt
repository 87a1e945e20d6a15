-- ===== src/System/Execution.antt =====
-- From the claim of an attempt to the end of its run: submit_job of worker/executor.py with the callback
-- of worker/main.py.
use job_schedular.Base.{ℕ, ◌/◌, ◌≡◌, refl, ◌⊎◌, inl, inr, true, List, String, Memᴰ, All}
use job_schedular.Table.{count}
use job_schedular.Models.{Job, JobAttempt, is_active_of}
use job_schedular.Models.Status.{attempt_is_active}
use job_schedular.Worker.Executor.{
  Outcome, returns, raises, Registry, get_handler, ExecutionResult, result_of_outcome, run_handler,
  execute_handler, Future, returned, submit_job,
}
use job_schedular.Worker.Main.{completed, passes_fence, handle_attempt_completion, run_claimed}
use job_schedular.System.Completion.{IsSuccessRun, Reach-completion}
use job_schedular.System.Failure.{IsClosedRun, Reach-closes}
use job_schedular.System.Steps.{State, start}
use job_schedular.System.Alone.{ReachAlone, Reach-of_alone}

-- In every state that is reached with one scheduler, if a QUEUED or RUNNING row of the table has
-- the id, the token and the run of a claim, and the pool's future holds what the submitted call returns, then the execution of the claim is
-- accepted and leaves no attempt of its run QUEUED or RUNNING. If the handler of the job is registered and
-- returns, then the run is SUCCESS; if it raises, or there is none of its name, then the run is closed.
pub Reach-run_claimed :
    (jobs : List Job) (s : State)
    → ReachAlone (start jobs) s
    → (a b : JobAttempt) (job : Job) → Memᴰ b s.db.attempts
    → attempt_is_active b.status ≡ true
    → passes_fence a b ≡ true
    → b.job_run_id ≡ a.job_run_id
    → (pool : ExecutionResult → Future) → ((res : ExecutionResult) → pool res ≡ returned res)
    → (registry : Registry) (missing : String) (elapsed now settled : ℕ)
    → let (after, completion) = run_claimed pool registry missing a job elapsed now settled s.db in
      (completion ≡ completed)
      × (count (is_active_of a.job_run_id) after.attempts ≡ 0)
      × (((out : String) × (run_handler missing a.id (get_handler job.handler registry)
              ≡ returns out)
            × All (IsSuccessRun a.job_run_id) after.runs)
          ⊎ ((message : String) × (run_handler missing a.id (get_handler job.handler registry)
                ≡ raises message)
              × All (IsClosedRun a.job_run_id) after.runs))
unfolding run_claimed submit_job execute_handler result_of_outcome
Reach-run_claimed jobs s r a b job m live fence run pool holds registry missing elapsed now
      settled =
    ends (run_handler missing a.id (get_handler job.handler registry))
  where
    result : Outcome → ExecutionResult
    result o = result_of_outcome (elapsed / 1000) o

    ends :
        (o : Outcome)
        → let (after, completion) =
            handle_attempt_completion a (pool (result o)) now settled s.db in
          (completion ≡ completed)
          × (count (is_active_of a.job_run_id) after.attempts ≡ 0)
          × (((out : String) × (o ≡ returns out) × All (IsSuccessRun a.job_run_id) after.runs)
              ⊎ ((message : String) × (o ≡ raises message)
                  × All (IsClosedRun a.job_run_id) after.runs))
    ends (returns out) =
        let closes =
          Reach-closes jobs s r a b (result (returns out)) now settled m live fence run in
        let succeeds =
          Reach-completion jobs s (Reach-of_alone r) a b (result (returns out)) now settled m fence
            run refl in
        rw (holds (result (returns out))) (closes.0, closes.2, inl (out, refl, succeeds.2))
    ends (raises message) =
        let closes =
          Reach-closes jobs s r a b (result (raises message)) now settled m live fence run in
        rw (holds (result (raises message))) (closes.0, closes.2, inr (message, refl, closes.3))
