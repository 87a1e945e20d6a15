-- ===== src/System/Tests.antt =====
-- The theorems about reachable states at the states of the sample history.
use job_schedular.Base.{
  length, ◌≤◌, ◌≡◌, refl, ◌≢◌, true, some, [], ◌∷◌, Memᴰ, All, ℕ, arith, false, ◌⊎◌, String,
}
use job_schedular.Base.Int.{pos}
use job_schedular.Table.{count}
use job_schedular.Models.{is_active_of}
use job_schedular.System.Failure.{IsClosedRun, Reach-closes}
use job_schedular.Api.Ops.{reset_attempts}
use job_schedular.System.Steps.{State, Reach, here, next, resets, resets_runs}
use job_schedular.System.Samples.{
  report_failed, by_schedule, first_claim, claimed, late, was_reset, claim_reached, reached,
  second_claim, second_claim_result, report_done, first_claim_there, running_db, claimed-IsSafe,
  finished-IsSafe, first_result, first_result_stays,
}
use job_schedular.System.Verdicts.{Verdict}
use job_schedular.System.Alone.{Reach-of_alone}
use job_schedular.Models.Samples.{nightly, clock, unlocked}
use job_schedular.Worker.Main.{
  of_run, stale, handle_attempt_completion, completed, finished_with, run_claimed,
}
use job_schedular.Api.Save.Limits.{AllLimited}
use job_schedular.System.Bounded.Always.{Reach-bounded}
use job_schedular.Worker.Claim.{claim_attempt}
use job_schedular.Worker.Executor.{
  raised, returned, returns, raises, run_handler, get_handler, builtin_handlers,
}
use job_schedular.Scheduler.Watchdog.{handle_expired_attempt, run_watchdog, WatchdogResult}
use job_schedular.System.Attempts.{has_id}
use job_schedular.System.Tables.{HasRun, HasJob}
use job_schedular.System.Lifecycle.{Comes}
use job_schedular.System.Lifecycle.Refines.{Step-Comes, Reach-ended}
use job_schedular.Models.Status.{attempt_is_active}
use job_schedular.Worker.Heartbeat.{find_expired_leases}
use job_schedular.System.Sweep.{IsWatched, Reach-run_watchdog}
use job_schedular.System.Handed.Often.{resets_of, Reach-handed}
use job_schedular.Base.{suc}
use job_schedular.System.LateSamples.{timed_out_claim, judged_late, late_reached}
use job_schedular.System.Overruled.{IsOverruled, Reach-IsOverruled}
use job_schedular.Models.Status.{RunStatus}
use job_schedular.System.Completion.{IsSuccessRun, Reach-completion}
use job_schedular.System.Execution.{Reach-run_claimed}
use job_schedular.System.Safety.{Reach-one_active, Reach-IsConsistent, IsConsistent}
use job_schedular.System.Fencing.{reclaim-not_stale, expired-not_stale}

Reach-one_active_example :
    (count (is_active_of 0) was_reset.db.attempts ≤ 1)
    × (count (has_id 0) was_reset.db.attempts ≤ 1)
Reach-one_active_example = Reach-one_active (nightly ∷ []) was_reset reached 0

Reach-IsConsistent_example :
    All IsConsistent was_reset.db.attempts
    × All (HasRun was_reset.db.runs) was_reset.db.attempts
    × All (HasJob was_reset.db.jobs) was_reset.db.attempts
Reach-IsConsistent_example = Reach-IsConsistent (nightly ∷ []) was_reset (Reach-of_alone reached)

-- The first claim's lease runs out at 45000200.
Reach-run_watchdog_example :
    let (after, result) = run_watchdog clock 45000201 claimed.db in
    ((r : WatchdogResult) × (result ≡ some r))
    × (find_expired_leases 45000201 after ≡ [])
    × All (IsWatched 45000201 after.attempts) after.runs
Reach-run_watchdog_example =
    Reach-run_watchdog (nightly ∷ []) claimed (Reach-of_alone claim_reached) clock 45000201

Reach-completion_example :
    let (after, completion) =
      handle_attempt_completion first_claim (returned report_done) 1600 1601 claimed.db in
    (completion ≡ completed)
    × Memᴰ (finished_with report_done 1600 first_claim) after.attempts
    × All (IsSuccessRun 0) after.runs
Reach-completion_example =
    Reach-completion (nightly ∷ []) claimed (Reach-of_alone claim_reached) first_claim first_claim
      report_done 1600 1601 first_claim_there refl refl refl

reclaim-not_stale_example :
    (second_claim.fencing_token ≡ first_claim.fencing_token)
    × ((handle_attempt_completion first_claim
          (raised "late")
          late
          late
          (claim_attempt by_schedule unlocked late late "worker-b" was_reset.db).0).1
        ≢ stale)
reclaim-not_stale_example =
    reclaim-not_stale (nightly ∷ []) was_reset (Reach-of_alone reached) first_claim second_claim
      by_schedule unlocked late late "worker-b" (raised "late") late late (Memᴰ.head refl)
      second_claim_result refl

expired-not_stale_example :
    (handle_attempt_completion first_claim
      (raised "late")
      late
      late
      (handle_expired_attempt clock first_claim late running_db).0).1
    ≢ stale
expired-not_stale_example =
    expired-not_stale clock first_claim late (raised "late") late late running_db (Memᴰ.head refl)

Step-Comes_example :
    All
      (Comes true claimed.db.next_id claimed.db.attempts)
      (reset_attempts "Reset by ops endpoint" (pos 60) late claimed.db).attempts
Step-Comes_example = Step-Comes (resets "Reset by ops endpoint" (pos 60) late) claimed-IsSafe

Reach-ended_example : attempt_is_active first_result.status ≡ false
Reach-ended_example =
    Reach-ended
      (next (next here (resets "Reset by ops endpoint" (pos 60) late)) (resets_runs (pos 60) late))
      finished-IsSafe first_result first_result first_result_stays.0 refl first_result_stays.1 refl

Reach-closes_example :
    let (after, completion) =
      handle_attempt_completion first_claim (returned report_failed) 1600 1601 claimed.db in
    (completion ≡ completed)
    × (length after.attempts ≡ length claimed.db.attempts)
    × (count (is_active_of 0) after.attempts ≡ 0)
    × All (IsClosedRun 0) after.runs
Reach-closes_example =
    Reach-closes (nightly ∷ []) claimed claim_reached first_claim first_claim report_failed 1600
      1601 first_claim_there refl refl refl

Reach-bounded_example :
    ((i : ℕ) → count (of_run i) was_reset.db.attempts ≤ 10) × AllLimited was_reset.db.jobs
Reach-bounded_example = Reach-bounded (nightly ∷ []) was_reset (omega arith, tt) reached

Reach-run_claimed_example :
    let (after, completion) =
      run_claimed returned builtin_handlers "KeyError" first_claim nightly 1500000 1600 1601
        claimed.db in
    (completion ≡ completed)
    × (count (is_active_of 0) after.attempts ≡ 0)
    × (((out : String) × (run_handler "KeyError" 1 (get_handler nightly.handler builtin_handlers)
            ≡ returns out)
          × All (IsSuccessRun 0) after.runs)
        ⊎ ((message : String) × (run_handler "KeyError" 1
                (get_handler nightly.handler builtin_handlers)
              ≡ raises message)
            × All (IsClosedRun 0) after.runs))
Reach-run_claimed_example =
    Reach-run_claimed (nightly ∷ []) claimed claim_reached first_claim first_claim nightly
      first_claim_there refl refl refl returned (λ res. refl) builtin_handlers "KeyError" 1500000
      1600 1601

Reach-handed_example : count (has_id 1) was_reset.handed ≤ suc (resets_of (Reach-of_alone reached))
Reach-handed_example = Reach-handed (nightly ∷ []) was_reset (Reach-of_alone reached) 1

abbrev failed_late : Verdict
failed_late = record { run_id = 0; status = RunStatus.permanently_failed }

Reach-IsOverruled_example :
    (u t : State) × Reach judged_late u
    × Memᴰ (finished_with report_done 50000400 timed_out_claim) u.db.attempts
    × All (IsSuccessRun 0) u.db.runs
    × (u.verdicts ≡ failed_late ∷ [])
    × Reach u t
    × Memᴰ (finished_with report_done 50000400 timed_out_claim) t.db.attempts
    × All (IsOverruled failed_late) t.db.runs
Reach-IsOverruled_example =
    Reach-IsOverruled (nightly ∷ []) judged_late late_reached first_claim timed_out_claim
      report_done 50000400 50000401 50000402 (Memᴰ.tail (Memᴰ.head refl)) (Memᴰ.head refl) refl refl
      refl failed_late [] [] refl refl
