-- ===== src/Scheduler/Samples.antt =====
-- Sample tables and environments for the scheduler's tests.
use job_schedular.Base.{
  ℕ, ◌+◌, ◌*◌, ◌≤◌, refl, true, false, none, some, List, [], ◌∷◌, arith, All, Memᴰ, ◌==◌,
}
use job_schedular.Models.Samples.{nightly, unlocked}
use job_schedular.Table.{count, select}
use job_schedular.Scheduler.Watchdog.{timed_out_at}
use job_schedular.OrderBy.{OrderBy}
use job_schedular.OrderBy.Keys.{order_by_key}
use job_schedular.Models.{
  Payload, OutboxEvent, Database, second, new_run, new_event, Job, JobRun, new_attempt,
}
use job_schedular.Scheduler.Tick.{Calendar, CronTime, due_jobs}
use job_schedular.Scheduler.Tick.Once.{HasOneRunEach}
use job_schedular.Scheduler.Tick.Order.{order_by_priority}
use job_schedular.OrderBy.Insertion.{sort_by, insert_by}
use job_schedular.Scheduler.Publisher.{Delivery, Session, OldestFirst}
use job_schedular.Scheduler.Publisher.Retries.{IsAccounted}
use job_schedular.Models.Status.{AttemptStatus}
use job_schedular.Scheduler.Publisher.Decrease.{HasUniqueIds}
use job_schedular.Scheduler.Publisher.Rounds.{Round}

-- Every hour, with a time zone.
abbrev pub hourly : Calendar
hourly = record {
  next = λ expression after. some (CronTime.aware (after + 3600 * second));
  zone = λ name. none;
}

abbrev pub payload : Payload
payload = record { run_id = 0; attempt_id = 1; job_id = 7; priority = some "HIGH" }

abbrev pub one_run : Database
one_run = record {
  jobs = nightly ∷ [];
  runs = new_run 0 7 100 100 ∷ [];
  attempts = [];
  workers = [];
  events = new_event 2 "job_attempt_created" 0 payload 100 ∷ [];
  next_id = 3;
}

pub one_run-HasOneRunEach : HasOneRunEach one_run.runs
unfolding count new_run
one_run-HasOneRunEach job_id t = ground arith

abbrev pub medium : Job
medium = record nightly { id = 8; name = "medium"; priority = "MEDIUM" }

abbrev pub low : Job
low = record nightly { id = 9; name = "low"; priority = "LOW" }

abbrev pub two_due : Database
two_due = record one_run { jobs = medium ∷ low ∷ [] }

pub medium_is_due : Memᴰ medium (due_jobs order_by_priority unlocked 600 two_due)
unfolding due_jobs select sort_by insert_by
medium_is_due = Memᴰ.tail (Memᴰ.head refl)

abbrev pub oldest : OrderBy OldestFirst
oldest = order_by_key (λ e. e.created_at)

abbrev pub refused : OutboxEvent → Delivery
refused e = record { accepted = false; now = 700; jitter = 5 }

abbrev pub taken : OutboxEvent → Delivery
taken e = record { accepted = true; now = 700; jitter = 0 }

abbrev pub usual : Session
usual = record { connected = true; commits = true }

pub one_run-IsAccounted : All IsAccounted one_run.events
unfolding new_event
one_run-IsAccounted = (refl, tt)

-- Turns at 5, 6 and 7 seconds, and one at 20.
abbrev pub turns : List ℕ
turns = 5 * second ∷ 6 * second ∷ 7 * second ∷ []

-- The run of the table has a TIMED_OUT attempt alone.
abbrev pub timed_out_once : Database
timed_out_once = record one_run {
  attempts =
      timed_out_at 600
        (record (new_attempt 1 0 7 1 "HIGH" 100 100) { status = AttemptStatus.running })
      ∷ [];
}

pub timed_out_once_unique : (i : ℕ) → count (λ (r : JobRun). r.id == i) timed_out_once.runs ≤ 1
unfolding count new_run
timed_out_once_unique i = ground arith

-- A pass whose messages are refused.
abbrev pub refused_at : ℕ → Round
refused_at t = record { env = refused; session = usual; locked = unlocked; now = t }

pub one_run-HasUniqueIds : HasUniqueIds one_run.events
unfolding count new_event
one_run-HasUniqueIds i = ground arith
