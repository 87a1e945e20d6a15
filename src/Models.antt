-- ===== src/Models.antt =====
-- apps/jobs/models.py and apps/executions/models.py: the rows of the five tables, and the database.
-- A timestamp and a duration are a number of microseconds, a UUID is a number, and a text column is
-- a `String`. A column with `choices` that the code only ever sets to one of them is an enumeration.
-- `next_id` stands for uuid.uuid4, whose values are never drawn twice: a new row takes it as its
-- primary key and leaves the next number.
pub mod Status
pub mod Samples
use Prim.Native.String.{String}
use job_schedular.Base.{ℕ, suc, ◌+◌, ◌*◌, Bool, ◌==◌, ◌&&◌, List, [], Option, none, some}
use Status.{
  ScheduleType, BackoffType, JobStatus, RunStatus, AttemptStatus, WorkerStatus, EventStatus,
  attempt_is_active,
}

-- One second, in microseconds.
abbrev pub second : ℕ
second = 1000000

pub record Job : Type 0 where
  pub id : ℕ
  pub name : String
  pub description : String
  pub schedule_type : ScheduleType
  pub cron_expression : Option String
  pub run_at : Option ℕ
  pub timezone : String
  pub priority : String
  pub timeout_seconds : ℕ
  pub handler : String
  pub retry_limit : ℕ
  pub retry_backoff_type : BackoffType
  pub retry_base_delay_seconds : ℕ
  pub status : JobStatus
  pub next_run_at : Option ℕ
  pub last_run_at : Option ℕ
  pub created_at : ℕ
  pub updated_at : ℕ

pub record JobRun : Type 0 where
  pub id : ℕ
  pub job_id : ℕ
  pub status : RunStatus
  pub scheduled_for : ℕ
  pub started_at : Option ℕ
  pub finished_at : Option ℕ
  pub total_attempts : ℕ
  pub created_at : ℕ

pub record JobAttempt : Type 0 where
  pub id : ℕ
  pub job_run_id : ℕ
  pub job_id : ℕ
  pub attempt_number : ℕ
  pub status : AttemptStatus
  pub priority : String
  pub worker_id : Option String
  pub fencing_token : ℕ
  pub lease_expires_at : Option ℕ
  pub scheduled_for : ℕ
  pub started_at : Option ℕ
  pub finished_at : Option ℕ
  pub duration : Option ℕ
  pub error_message : Option String
  pub created_at : ℕ

pub record Worker : Type 0 where
  pub id : String
  pub hostname : String
  pub status : WorkerStatus
  pub started_at : ℕ
  pub last_heartbeat_at : ℕ
  pub created_at : ℕ

-- The JSON object that `create_run_for_job` stores; `publish_event` reads its `priority` with a
-- default, so that field may be missing.
pub record Payload : Type 0 where
  pub run_id : ℕ
  pub attempt_id : ℕ
  pub job_id : ℕ
  pub priority : Option String

pub record OutboxEvent : Type 0 where
  pub id : ℕ
  pub event_type : String
  pub aggregate_id : ℕ
  pub payload : Payload
  pub status : EventStatus
  pub created_at : ℕ
  pub published_at : Option ℕ
  pub attempts : ℕ
  pub next_attempt_at : ℕ

pub record Database : Type 0 where
  pub jobs : List Job
  pub runs : List JobRun
  pub attempts : List JobAttempt
  pub workers : List Worker
  pub events : List OutboxEvent
  pub next_id : ℕ

-- The column defaults of a row that `objects.create` writes.
unfoldable pub new_run : ℕ → ℕ → ℕ → ℕ → JobRun
new_run id job_id scheduled_for created_at = record {
  id = id;
  job_id = job_id;
  status = RunStatus.queued;
  scheduled_for = scheduled_for;
  started_at = none;
  finished_at = none;
  total_attempts = 1;
  created_at = created_at;
}

unfoldable pub new_attempt : ℕ → ℕ → ℕ → ℕ → String → ℕ → ℕ → JobAttempt
new_attempt id run_id job_id attempt_number priority scheduled_for created_at = record {
  id = id;
  job_run_id = run_id;
  job_id = job_id;
  attempt_number = attempt_number;
  status = AttemptStatus.queued;
  priority = priority;
  worker_id = none;
  fencing_token = 0;
  lease_expires_at = none;
  scheduled_for = scheduled_for;
  started_at = none;
  finished_at = none;
  duration = none;
  error_message = none;
  created_at = created_at;
}

unfoldable pub new_event : ℕ → String → ℕ → Payload → ℕ → OutboxEvent
new_event id event_type aggregate_id payload created_at = record {
  id = id;
  event_type = event_type;
  aggregate_id = aggregate_id;
  payload = payload;
  status = EventStatus.pending;
  created_at = created_at;
  published_at = none;
  attempts = 0;
  next_attempt_at = created_at;
}

-- `attempts.filter(job_run_id=run)` with an active status.
abbrev pub is_active_of : ℕ → JobAttempt → Bool
is_active_of run a = a.job_run_id == run && attempt_is_active a.status
