-- ===== src/Scheduler/Tick.antt =====
-- scheduler/tick.py: due jobs get a run, an attempt and an outbox event. The cron library and the
-- time zones are arguments.
pub mod Once
pub mod Order
pub mod Moved
use Prim.Native.String.{compare}
use text.Mathlib.Text.{is_lt}
use job_schedular.Base.{
  ℕ, suc, ◌+◌, ◌≤◌, ◌≡◌, ◌⊎◌, Bool, true, false, not, ◌&&◌, Option, none, some, List, [], ◌∷◌,
  String, leb, ◌==◌, if◌then◌else◌, take,
}
use job_schedular.Table.{select, exists, update, insert}
use job_schedular.OrderBy.{OrderBy}
use job_schedular.Models.{Job, JobRun, Database, Payload, new_run, new_attempt, new_event}
use job_schedular.Models.Status.{ScheduleType, job_is_active}

abbrev pub max_jobs_per_tick : ℕ
max_jobs_per_tick = 50

-- croniter's next occurrence, with or without a time zone.
pub data CronTime : Type 0 where
  aware naive : ℕ → CronTime

-- `next expression after` is croniter's next occurrence, `none` if it raises. `zone name` is the
-- reading of a local time in that zone, `none` if there is no such zone.
pub record Calendar : Type 0 where
  pub next : Option String → ℕ → Option CronTime
  pub zone : String → Option (ℕ → ℕ)

-- A naive time is read in the job's zone. If there is no such zone the code names `tz.UTC`, which Django's
-- timezone module does not have: an exception, `none`.
unfoldable pub with_timezone : Calendar → Job → CronTime → Option ℕ
with_timezone c job (aware t) = some t
with_timezone c job (naive t) = elim (c.zone job.timezone) [ none ↦ none | some at ↦ some (at t) ]

-- `some none` is the NULL of a one-time job; `none` is an exception.
unfoldable pub calculate_next_run : Calendar → Job → ℕ → Option (Option ℕ)
calculate_next_run c job after = elim job.schedule_type [
  | ScheduleType.one_time ↦ some none
  | ScheduleType.cron ↦ elim (c.next job.cron_expression after) [
    | none ↦ none
    | some t ↦ elim (with_timezone c job t) [ none ↦ none | some at ↦ some (some at) ]
  ]
]

-- `job.next_run_at or now`.
abbrev pub scheduled_time : Job → ℕ → ℕ
scheduled_time job now = elim job.next_run_at [ none ↦ now | some t ↦ t ]

-- `JobRun.objects.filter(job=job, scheduled_for=scheduled_for)`.
abbrev pub is_run_of : ℕ → ℕ → JobRun → Bool
is_run_of job_id scheduled_for r = r.job_id == job_id && r.scheduled_for == scheduled_for

-- The three new rows take the ids `n`, `n + 1` and `n + 2`.
unfoldable pub create_run_for_job : (ℕ → ℕ) → Job → ℕ → Database → Database × Bool
create_run_for_job clock job now db =
    let scheduled_for = scheduled_time job now in
    let run_id = db.next_id in
    let attempt_id = suc run_id in
    let event_id = suc attempt_id in
    let run = new_run run_id job.id scheduled_for (clock run_id) in
    let attempt =
      new_attempt attempt_id run_id job.id 1 job.priority scheduled_for (clock attempt_id) in
    let payload : Payload = record {
      run_id = run_id;
      attempt_id = attempt_id;
      job_id = job.id;
      priority = some job.priority;
    } in
    let event = new_event event_id "job_attempt_created" run_id payload (clock event_id) in
    if exists (is_run_of job.id scheduled_for) db.runs then (db, false) else (
      record db {
        runs = insert run db.runs;
        attempts = insert attempt db.attempts;
        events = insert event db.events;
        next_id = suc event_id;
      },
      true,
    )

-- `job.save(update_fields=["next_run_at", "last_run_at"])`.
unfoldable pub moved_to : Option ℕ → ℕ → Job → Job
moved_to next now j = record j { next_run_at = next; last_run_at = some now }

unfoldable pub reschedule_job : Job → Option ℕ → ℕ → Database → Database
reschedule_job job next now db = record db {
  jobs = update (λ j. j.id == job.id) (moved_to next now) db.jobs;
}

-- One turn of the loop of `tick`: the next occurrence comes first, and if that raises the job is
-- passed over.
unfoldable pub schedule_job : Calendar → (ℕ → ℕ) → ℕ → Job → Database → Database × Bool
schedule_job c clock now job db = elim (calculate_next_run c job now) [
  | none ↦ (db, false)
  | some next ↦
      let (db', created) = create_run_for_job clock job now db in
      (reschedule_job job next now db', created)
]

unfoldable pub schedule_jobs : Calendar → (ℕ → ℕ) → ℕ → List Job → Database → Database × ℕ
schedule_jobs c clock now [] db = (db, 0)
schedule_jobs c clock now (job ∷ jobs) db =
    let (db', created) = schedule_job c clock now job db in
    let (db'', n) = schedule_jobs c clock now jobs db' in (db'', (if created then 1 else 0) + n)

-- `next_run_at__lte=now`; NULL meets no comparison.
abbrev pub is_due_at : ℕ → Option ℕ → Bool
is_due_at now none = false
is_due_at now (some t) = leb t now

abbrev pub is_due : (ℕ → Bool) → ℕ → Job → Bool
is_due locked now j = not (locked j.id) && (job_is_active j.status && is_due_at now j.next_run_at)

abbrev pub NextRunLe : Option ℕ → Option ℕ → Type 0
NextRunLe none t = Unit
NextRunLe (some s) none = ⊥
NextRunLe (some s) (some t) = s ≤ t

-- The relation of `order_by("priority", "next_run_at")`: the column `priority` is text.
abbrev pub PriorityText : Job → Job → Type 0
PriorityText a b =
    (is_lt (compare a.priority b.priority) ≡ true)
    ⊎ ((a.priority ≡ b.priority) × NextRunLe a.next_run_at b.next_run_at)

unfoldable pub due_jobs : OrderBy PriorityText → (ℕ → Bool) → ℕ → Database → List Job
due_jobs o locked now db = take max_jobs_per_tick (o.sort (select (is_due locked now) db.jobs))

unfoldable pub tick :
    Calendar → OrderBy PriorityText → (ℕ → ℕ) → (ℕ → Bool) → ℕ → Database → Database × ℕ
tick c o clock locked now db = schedule_jobs c clock now (due_jobs o locked now db) db
