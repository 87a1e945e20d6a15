-- ===== src/Scheduler/Tests.antt =====
-- The scheduler's theorems on the sample tables.
use job_schedular.Base.{
  ◌+◌, ◌*◌, ◌⊎◌, inr, none, refl, ◌-◌, ◌≤◌, ◌<◌, ◌≡◌, [], ◌∷◌, arith, if◌then◌else◌, map, length,
  All, ◌&&◌, str_eq,
}
use job_schedular.Models.{second}
use job_schedular.Scheduler.Tick.{
  tick, calculate_next_run, schedule_jobs, is_due, due_jobs, max_jobs_per_tick,
}
use job_schedular.Scheduler.Tick.Moved.{IsForward, IsMovedOn, tick-IsMovedOn}
use job_schedular.Scheduler.Samples.{
  hourly, one_run, one_run-HasOneRunEach, medium, low, two_due, medium_is_due, oldest, refused,
  taken, usual, one_run-IsAccounted, turns, timed_out_once, timed_out_once_unique, refused_at,
  one_run-HasUniqueIds,
}
use job_schedular.Table.{count, select, update}
use job_schedular.Models.Samples.{nightly, clock, unlocked}
use job_schedular.Scheduler.Tick.Once.{HasOneRunEach, HasGrownBy, schedule_jobs-HasOneRunEach}
use job_schedular.Scheduler.Tick.Order.{order_by_priority, due_jobs_medium_last}
use job_schedular.OrderBy.Insertion.{sort_by, insert_by}
use job_schedular.Scheduler.Publisher.{
  batch_size, message_of, pending_events, publish_pending_events, max_publish_attempts,
}
use job_schedular.Scheduler.Publisher.Events.{publish_pending_events_sent}
use job_schedular.Scheduler.Publisher.Retries.{IsAccounted, publish_pending_events-IsAccounted}
use job_schedular.Scheduler.Watchdog.{mark_permanently_failed}
use job_schedular.Scheduler.Main.{
  HasSpacing, IsTurned, scheduler_turn, scheduler_run, initial, scheduler_run_paced,
}
use job_schedular.Models.Status.{run_is_open}
use job_schedular.Scheduler.Watchdog.OnePass.{judged, run_is_over, mark_permanently_failed_at_once}
use job_schedular.Scheduler.Publisher.Decrease.{total_tries_left}
use job_schedular.Scheduler.Publisher.Rounds.{run_rounds, run_rounds_decrease}

schedule_jobs-HasOneRunEach_example :
    let (after, created) = schedule_jobs hourly clock 600 (nightly ∷ nightly ∷ []) one_run in
    HasOneRunEach after.runs × HasGrownBy created one_run after
schedule_jobs-HasOneRunEach_example =
    schedule_jobs-HasOneRunEach hourly clock 600 (nightly ∷ nightly ∷ []) one_run
      one_run-HasOneRunEach

due_jobs_medium_last_example :
    count (λ j. is_due unlocked 600 j && str_eq j.priority "LOW") two_due.jobs < max_jobs_per_tick
due_jobs_medium_last_example =
    due_jobs_medium_last order_by_priority unlocked 600 two_due medium medium_is_due refl

publish_pending_events_sent_example :
    let (after, sent, n) = publish_pending_events oldest taken usual unlocked 600 one_run in
    (sent ≡ (
      if usual.connected
      then map message_of
          (select (λ e. (taken e).accepted) (pending_events oldest unlocked 600 one_run.events))
      else []))
    × (n ≡ length sent)
    × (n ≤ batch_size)
publish_pending_events_sent_example =
    publish_pending_events_sent oldest taken usual unlocked 600 one_run

publish_pending_events-IsAccounted_example :
    All IsAccounted (publish_pending_events oldest refused usual unlocked 600 one_run).0.events
publish_pending_events-IsAccounted_example =
    publish_pending_events-IsAccounted oldest refused usual unlocked 600 one_run one_run-IsAccounted

scheduler_run_paced_example :
    let before = scheduler_run turns initial in
    let after = scheduler_turn (20 * second) before in
    HasSpacing (20 * second - 0) initial after
    × (IsTurned 5 (20 * second) before.tick after.tick
        × IsTurned 1 (20 * second) before.publisher after.publisher
        × IsTurned 10 (20 * second) before.watchdog after.watchdog)
scheduler_run_paced_example =
    scheduler_run_paced initial turns 0 (20 * second) (omega arith) (omega arith) (omega arith)
      (omega arith, (omega arith, (omega arith, omega arith)))

mark_permanently_failed_at_once_example : mark_permanently_failed 900 timed_out_once ≡ (
  record timed_out_once {
    runs =
        update (λ r. run_is_open r.status) (judged 900 timed_out_once.attempts) timed_out_once.runs;
  },
  count (λ r. run_is_open r.status && run_is_over timed_out_once.attempts r) timed_out_once.runs,
)
mark_permanently_failed_at_once_example =
    mark_permanently_failed_at_once 900 timed_out_once timed_out_once_unique

run_rounds_decrease_example :
    let (after, tried) = run_rounds oldest (refused_at 600 ∷ refused_at 5000000 ∷ []) one_run in
    (tried + total_tries_left after.events ≤ total_tries_left one_run.events)
    × (total_tries_left one_run.events ≤ max_publish_attempts * length one_run.events)
run_rounds_decrease_example =
    run_rounds_decrease oldest (refused_at 600 ∷ refused_at 5000000 ∷ []) one_run
      one_run-HasUniqueIds one_run-IsAccounted

-- The LOW job goes first.
low_first : due_jobs order_by_priority unlocked 600 two_due ≡ low ∷ medium ∷ []
unfolding due_jobs select sort_by insert_by
low_first = refl

hourly-IsForward : IsForward hourly
hourly-IsForward expression after = inr (after + 3600 * second, refl, omega arith)

tick-IsMovedOn_example :
    All
      (λ j.
        (calculate_next_run hourly j 600 ≡ none)
        ⊎ All
            (IsMovedOn 600 j.id)
            (tick hourly order_by_priority clock unlocked 600 two_due).0.jobs)
      (due_jobs order_by_priority unlocked 600 two_due)
tick-IsMovedOn_example =
    tick-IsMovedOn hourly order_by_priority clock unlocked 600 two_due hourly-IsForward
