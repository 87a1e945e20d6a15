-- ===== src/Models/Status.antt =====
-- The `TextChoices` classes of apps/jobs/models.py and apps/executions/models.py, with the tests
-- that the queries make.
use job_schedular.Base.{Bool, true, false, ◌||◌}

pub data ScheduleType : Type 0 where
  cron one_time : ScheduleType

pub data BackoffType : Type 0 where
  fixed exponential : BackoffType

pub data JobStatus : Type 0 where
  active inactive deleted : JobStatus

pub data RunStatus : Type 0 where
  queued running success permanently_failed cancelled : RunStatus

pub data AttemptStatus : Type 0 where
  queued running success failed timed_out cancelled : AttemptStatus

pub data WorkerStatus : Type 0 where
  active dead : WorkerStatus

pub data EventStatus : Type 0 where
  pending published failed : EventStatus

abbrev pub job_is_active : JobStatus → Bool
job_is_active JobStatus.active = true
job_is_active _ = false

-- `status__in=[ACTIVE, INACTIVE]`.
abbrev pub job_is_listed : JobStatus → Bool
job_is_listed JobStatus.deleted = false
job_is_listed _ = true

abbrev pub run_is_queued : RunStatus → Bool
run_is_queued RunStatus.queued = true
run_is_queued _ = false

-- `status__in=[QUEUED, RUNNING]`.
abbrev pub run_is_open : RunStatus → Bool
run_is_open RunStatus.queued = true
run_is_open RunStatus.running = true
run_is_open _ = false

abbrev pub run_is_success : RunStatus → Bool
run_is_success RunStatus.success = true
run_is_success _ = false

abbrev pub run_is_permanently_failed : RunStatus → Bool
run_is_permanently_failed RunStatus.permanently_failed = true
run_is_permanently_failed _ = false

abbrev pub attempt_is_queued : AttemptStatus → Bool
attempt_is_queued AttemptStatus.queued = true
attempt_is_queued _ = false

abbrev pub attempt_is_running : AttemptStatus → Bool
attempt_is_running AttemptStatus.running = true
attempt_is_running _ = false

abbrev pub attempt_is_success : AttemptStatus → Bool
attempt_is_success AttemptStatus.success = true
attempt_is_success _ = false

-- `status__in=[QUEUED, RUNNING]`.
abbrev pub attempt_is_active : AttemptStatus → Bool
attempt_is_active s = attempt_is_queued s || attempt_is_running s

abbrev pub worker_is_active : WorkerStatus → Bool
worker_is_active WorkerStatus.active = true
worker_is_active WorkerStatus.dead = false

abbrev pub event_is_pending : EventStatus → Bool
event_is_pending EventStatus.pending = true
event_is_pending _ = false
