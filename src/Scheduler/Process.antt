-- ===== src/Scheduler/Process.antt =====
-- The process of scheduler/main.py, with what its three responsibilities do to the database.
use job_schedular.Base.{ℕ, ◌*◌, ◌-◌, Bool, List, [], ◌∷◌, leb, if◌then◌else◌}
use job_schedular.OrderBy.{OrderBy}
use job_schedular.Models.{OutboxEvent, Database, second}
use job_schedular.Scheduler.Tick.{Calendar, PriorityText, tick}
use job_schedular.Scheduler.Publisher.{Delivery, Session, OldestFirst, publish_pending_events}
use job_schedular.Scheduler.Watchdog.{run_watchdog}
use job_schedular.Scheduler.Main.{
  Timer, Loop, tick_interval_seconds, publisher_interval_seconds, watchdog_interval_seconds,
  scheduler_turn, initial,
}

-- What the environment answers in one turn: `now` is `time.time()`, and each responsibility reads the
-- clock by itself.
pub record SchedulerTurn : Type 0 where
  pub now : ℕ
  pub calendar : Calendar
  pub clock : ℕ → ℕ
  pub locked_jobs : ℕ → Bool
  pub ticked_at : ℕ
  pub deliveries : OutboxEvent → Delivery
  pub session : Session
  pub locked_events : ℕ → Bool
  pub published_at : ℕ
  pub watched_at : ℕ

unfoldable pub is_timer_due : ℕ → ℕ → Timer → Bool
is_timer_due interval now t = leb (interval * second) (now - t.last)

module _ (by_priority : OrderBy PriorityText) (oldest : OrderBy OldestFirst) where
  unfoldable pub tick_if_due : SchedulerTurn → Loop → Database → Database
  tick_if_due t loop db =
      if is_timer_due tick_interval_seconds t.now loop.tick
      then (tick t.calendar by_priority t.clock t.locked_jobs t.ticked_at db).0
      else db

  unfoldable pub publish_if_due : SchedulerTurn → Loop → Database → Database
  publish_if_due t loop db =
      if is_timer_due publisher_interval_seconds t.now loop.publisher
      then (publish_pending_events oldest t.deliveries t.session t.locked_events t.published_at
          db).0
      else db

  -- An exception of the watchdog is caught; what it committed before stays.
  unfoldable pub watch_if_due : SchedulerTurn → Loop → Database → Database
  watch_if_due t loop db =
      if is_timer_due watchdog_interval_seconds t.now loop.watchdog
      then (run_watchdog t.clock t.watched_at db).0
      else db

  -- One turn of `while True`, with the timers.
  unfoldable pub process_turn : SchedulerTurn → Loop × Database → Loop × Database
  process_turn t (loop, db) = (
    scheduler_turn t.now loop,
    watch_if_due t loop (publish_if_due t loop (tick_if_due t loop db)),
  )

  unfoldable pub process_run : List SchedulerTurn → Loop × Database → Loop × Database
  process_run [] s = s
  process_run (t ∷ ts) s = process_run ts (process_turn t s)

  -- `main`, stopped after some turns.
  unfoldable pub scheduler_process : List SchedulerTurn → Database → Database
  scheduler_process ts db = (process_run ts (initial, db)).1
