-- ===== src/System/Lifecycle/Refines.antt =====
-- Every step of the program is a move of the machine for each attempt.
use job_schedular.Base.{
  ◌≤◌, ◌<◌, ◌≡◌, refl, sym, subst, ◌∙◌, inl, inr, Bool, true, false, some, Memᴰ, arith, All,
  All-of_Memᴰ,
}
use job_schedular.Models.{JobAttempt}
use job_schedular.Models.Status.{attempt_is_active}
use job_schedular.Worker.Heartbeat.{mark_worker_dead}
use job_schedular.Scheduler.Watchdog.{mark_dead_workers}
use job_schedular.System.Attempts.{row_of_id}
use job_schedular.System.Steps.{State, Step, Reach}
use job_schedular.System.Steps.Safe.{IsSafe, Reach-IsSafe}
use job_schedular.System.Lifecycle.{Moves, IsMoved, Comes, Evolves-same}
use job_schedular.System.Lifecycle.Parts.{
  same, tick-Evolves, reset_attempts-Evolves, reset_runs-Evolves, delete_old_attempts-Evolves,
  delete_old_runs-Evolves, send_heartbeat-Evolves, claim_attempt-Evolves, reported-Evolves,
  finish_run-Evolves,
}
use job_schedular.System.Started.{create_run-Evolves, try_first_attempt-Moves}
use job_schedular.System.Expiring.{commit_expiry-Moves}
use job_schedular.System.Lifecycle.Others.{
  publish-Evolves, register-Evolves, delete_found-Evolves, post_job-Evolves, patch_found-Evolves,
}

-- The steps that put attempts back into the queue: an operator's reset of stuck runs.
abbrev pub is_requeue : {s t : State} → Step s t → Bool
is_requeue (Step.resets message timeout now) = true
is_requeue _ = false

pub Step-Moves :
    {s t : State} (step : Step s t)
    → IsSafe s
    → Moves (is_requeue step) s.db.next_id s.db.attempts t.db
unfolding mark_dead_workers mark_worker_dead
Step-Moves {s} (Step.ticks c o clock locked now) h =
    (tick-Evolves false s.db c o clock locked now).moves
Step-Moves {s} (Step.publishes o env session locked now) h =
    (publish-Evolves false s.db o env session locked now).moves
Step-Moves {s} (Step.looks attempt_id now row e due) h = (same false s.db).moves
Step-Moves {s} (Step.counts e before after q) h = (same false s.db).moves
Step-Moves {s} (Step.expires clock now total job e before after q counted m same_job) h =
    commit_expiry-Moves clock e.row total job now s.db
Step-Moves {s} (Step.gives_up e before after q) h = (same false s.db).moves
Step-Moves {s} (Step.judges_open run) h = (same false s.db).moves
Step-Moves {s} (Step.saves now v before after e) h =
    (finish_run-Evolves false s.db.next_id s.db.attempts v.status now v.run_id s.db
      (same false s.db)).moves
Step-Moves {s} (Step.sweeps now) h = (Evolves-same false s.db _ refl (omega arith)).moves
Step-Moves {s} (Step.claims o locked queried now worker_id) h =
    (claim_attempt-Evolves false s.db h.tables o locked queried now worker_id).moves
Step-Moves {s} (Step.registers worker_id hostname now created_at) h =
    (register-Evolves false s.db worker_id hostname now created_at).moves
Step-Moves {s} (Step.beats worker_id now) h =
    (send_heartbeat-Evolves false s.db worker_id now).moves
Step-Moves {s} (Step.stops worker_id) h = (Evolves-same false s.db _ refl (omega arith)).moves
Step-Moves {s} (Step.reports attempt future now m) h =
    (reported-Evolves false s.db h.tables attempt future now
      (All-of_Memᴰ (λ a. a.fencing_token ≡ 1) attempt s.handed h.tokens m)).moves
Step-Moves {s} (Step.judges attempt m) h = (same false s.db).moves
Step-Moves {s} (Step.triggers clock job now m active) h =
    (create_run-Evolves clock job now s.db).moves
Step-Moves {s} (Step.queues_first clock t now m) h = try_first_attempt-Moves clock now t s.db
Step-Moves {s} (Step.posts_job c cal refused checked now created_at d) h =
    (post_job-Evolves false s.db c cal refused checked now created_at d).moves
Step-Moves {s} (Step.reads_job job m) h = (same false s.db).moves
Step-Moves {s} (Step.patches_job c cal refused checked now saved_at d job m) h =
    (patch_found-Evolves false s.db c cal refused checked now saved_at d (some job)).moves
Step-Moves {s} (Step.deletes_job now job m) h =
    (delete_found-Evolves false s.db now (some job)).moves
Step-Moves {s} (Step.resets message timeout now) h =
    (reset_attempts-Evolves s.db message timeout now).moves
Step-Moves {s} (Step.resets_runs timeout now) h = (reset_runs-Evolves false s.db timeout now).moves
Step-Moves {s} (Step.cleans days now) h = (delete_old_attempts-Evolves false s.db days now).moves
Step-Moves {s} (Step.cleans_runs days now) h = (delete_old_runs-Evolves false s.db days now).moves

-- Every step from a safe state refines the life of an attempt: each attempt after it is one that was there
-- before, with its id, run and number, and with a status to which the machine allows it to move, where any
-- attempt may be timed out and only the reset of stuck runs puts one back into the queue; or it is QUEUED and has an id that no attempt had.
pub Step-Comes :
    {s t : State} (step : Step s t)
    → IsSafe s
    → All (Comes (is_requeue step) s.db.next_id s.db.attempts) t.db.attempts
Step-Comes step safe = (Step-Moves step safe).rows

Reach-later : {s t : State} → Reach s t → IsSafe s → s.db.next_id ≤ t.db.next_id
Reach-later Reach.here safe = omega arith
Reach-later (Reach.next r step) safe =
    omega (arith, Reach-later r safe, (Step-Moves step (Reach-IsSafe safe r)).later)

move_of_ended :
    (requeues : Bool) (a b : JobAttempt)
    → IsMoved requeues a b
    → attempt_is_active a.status ≡ false
    → attempt_is_active b.status ≡ false
move_of_ended requeues a b moved ended = ground (arith, moved.status)

-- An attempt that is neither QUEUED nor RUNNING is never so again, whatever steps follow from a safe state:
-- no later row with its id is QUEUED or RUNNING.
pub Reach-ended :
    {s t : State}
    → Reach s t
    → IsSafe s
    → (a b : JobAttempt) → Memᴰ a s.db.attempts
    → attempt_is_active a.status ≡ false
    → Memᴰ b t.db.attempts
    → b.id ≡ a.id
    → attempt_is_active b.status ≡ false
Reach-ended Reach.here safe a b ma ended mb e =
    subst (λ x. attempt_is_active x.status ≡ false)
      (row_of_id safe.tables.attempts a b ma mb (sym e)) ended
Reach-ended {s} (Reach.next {t} r step) safe a b ma ended mb e =
    elim (All-of_Memᴰ (Comes (is_requeue step) t.db.next_id t.db.attempts) b _
      (Step-Comes step (Reach-IsSafe safe r)) mb) [
        | inl (c, mc, moved) ↦
            move_of_ended (is_requeue step) c b moved
              (Reach-ended r safe a c ma ended mc (sym moved.id ∙ e))
        | inr (new, queued) ↦ absurd (
            omega (
              arith,
              new,
              e,
              Reach-later r safe,
              All-of_Memᴰ (λ x. x.id < s.db.next_id) a s.db.attempts safe.tables.attempts.ids_below
                  ma,
            ))
      ]
