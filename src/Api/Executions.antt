-- ===== src/Api/Executions.antt =====
-- apps/executions/views.py: the endpoints that read runs, attempts and workers, and the dashboard. An
-- answer is the list of rows that it shows, in order; the fields of the JSON objects are those of the
-- rows, printed. The parameters of a request are given as the text that was sent.
use job_schedular.Base.{
  ℕ, ◌+◌, ◌*◌, ◌-◌, ◌≤◌, Bool, true, false, ◌&&◌, Option, none, some, List, String, ltb, leb, ◌==◌,
  str_eq, min, if◌then◌else◌, take, drop, length,
}
use job_schedular.Table.{select, count, find?}
use job_schedular.OrderBy.{OrderBy}
use job_schedular.Models.{JobRun, JobAttempt, Worker, Database, second}
use job_schedular.Models.Status.{
  RunStatus, AttemptStatus, WorkerStatus, run_is_success, run_is_permanently_failed, run_is_queued,
  attempt_is_queued, attempt_is_running, worker_is_active, job_is_listed, job_is_active,
}
use job_schedular.Worker.Heartbeat.{held_by}
use job_schedular.Api.Jobs.{Response, http_200, http_404, get_job, matches}

abbrev pub run_status_text : RunStatus → String
run_status_text RunStatus.queued = "QUEUED"
run_status_text RunStatus.running = "RUNNING"
run_status_text RunStatus.success = "SUCCESS"
run_status_text RunStatus.permanently_failed = "PERMANENTLY_FAILED"
run_status_text RunStatus.cancelled = "CANCELLED"

abbrev pub attempt_status_text : AttemptStatus → String
attempt_status_text AttemptStatus.queued = "QUEUED"
attempt_status_text AttemptStatus.running = "RUNNING"
attempt_status_text AttemptStatus.success = "SUCCESS"
attempt_status_text AttemptStatus.failed = "FAILED"
attempt_status_text AttemptStatus.timed_out = "TIMED_OUT"
attempt_status_text AttemptStatus.cancelled = "CANCELLED"

abbrev pub worker_status_text : WorkerStatus → String
worker_status_text WorkerStatus.active = "ACTIVE"
worker_status_text WorkerStatus.dead = "DEAD"

abbrev pub max_page : ℕ
max_page = 200

-- `queryset[offset : offset + limit]`, with `limit` cut to 200. Both are as `int(...)` read them, and
-- not negative: Django refuses a negative index.
unfoldable pub page : {A : Type 0} → ℕ → ℕ → List A → List A
page limit offset xs = take (min limit max_page) (drop offset xs)

abbrev pub matches_id : Option ℕ → ℕ → Bool
matches_id none i = true
matches_id (some q) i = i == q

-- A nullable text column that is filtered by a value.
abbrev pub matches_worker : Option String → Option String → Bool
matches_worker none w = true
matches_worker (some q) w = if str_eq q "" then true else held_by q w

-- `order_by("-created_at")`.
abbrev pub NewestRun : JobRun → JobRun → Type 0
NewestRun a b = b.created_at ≤ a.created_at

abbrev pub NewestAttempt : JobAttempt → JobAttempt → Type 0
NewestAttempt a b = b.created_at ≤ a.created_at

-- The two filters of JobRunListView, and its page.
abbrev pub run_matches : Option String → Option ℕ → JobRun → Bool
run_matches status job_id r =
    matches status (run_status_text r.status) && matches_id job_id r.job_id

unfoldable pub list_runs :
    OrderBy NewestRun → Option String → Option ℕ → ℕ → ℕ → Database → List JobRun
list_runs o status job_id limit offset db =
    page limit offset (o.sort (select (run_matches status job_id) db.runs))

-- JobRunListView.get of apps/jobs/views.py: all runs of a job, or the 404.
unfoldable pub list_job_runs : OrderBy NewestRun → ℕ → Database → Response (List JobRun)
list_job_runs o job_id db = elim (get_job job_id db) [
  | none ↦ http_404
  | some job ↦ http_200 (o.sort (select (λ r. r.job_id == job_id) db.runs))
]

abbrev pub attempt_matches :
    Option String → Option String → Option ℕ → Option String → JobAttempt → Bool
attempt_matches status worker_id job_id priority a =
    matches status (attempt_status_text a.status)
    && (matches_worker worker_id a.worker_id
        && (matches_id job_id a.job_id && matches priority a.priority))

unfoldable pub list_attempts :
    OrderBy NewestAttempt
    → Option String
    → Option String
    → Option ℕ
    → Option String
    → ℕ
    → ℕ
    → Database
    → List JobAttempt
list_attempts o status worker_id job_id priority limit offset db =
    page limit offset
      (o.sort (select (attempt_matches status worker_id job_id priority) db.attempts))

-- `order_by("attempt_number")`.
abbrev pub ByNumber : JobAttempt → JobAttempt → Type 0
ByNumber a b = a.attempt_number ≤ b.attempt_number

-- JobRunDetailView.get: the run and its attempts; `none` is the 404.
unfoldable pub get_run : OrderBy ByNumber → ℕ → Database → Option (JobRun × List JobAttempt)
get_run o run_id db = elim (find? (λ r. r.id == run_id) db.runs) [
  | none ↦ none
  | some run ↦ some (run, o.sort (select (λ a. a.job_run_id == run.id) db.attempts))
]

-- JobAttemptDetailView.get.
unfoldable pub get_attempt : ℕ → Database → Option JobAttempt
get_attempt attempt_id db = find? (λ a. a.id == attempt_id) db.attempts

-- `(tz.now() - w.last_heartbeat_at) < timedelta(seconds=60)`.
unfoldable pub is_alive : ℕ → Worker → Bool
is_alive now w = ltb now (w.last_heartbeat_at + 60 * second)

-- `order_by("-last_heartbeat_at")`.
abbrev pub LatestBeat : Worker → Worker → Type 0
LatestBeat a b = b.last_heartbeat_at ≤ a.last_heartbeat_at

-- WorkerListView.get: the rows; each is rendered with its `is_alive`.
unfoldable pub list_workers : OrderBy LatestBeat → Option String → Database → List Worker
list_workers o status db =
    o.sort (select (λ w. matches status (worker_status_text w.status)) db.workers)

-- WorkerDetailView.get: the worker and its running attempts.
unfoldable pub get_worker :
    OrderBy NewestAttempt → String → Database → Option (Worker × List JobAttempt)
get_worker o worker_id db = elim (find? (λ w. str_eq w.id worker_id) db.workers) [
  | none ↦ none
  | some w ↦ some (
    w,
    o.sort (select (λ a. held_by worker_id a.worker_id && attempt_is_running a.status) db.attempts),
  )
]

pub record RunStats : Type 0 where
  pub total : ℕ
  pub success : ℕ
  pub failed : ℕ

-- The aggregate over the runs created since a time.
unfoldable pub run_stats : ℕ → Database → RunStats
run_stats since db =
    let recent = select (λ r. leb since r.created_at) db.runs in
    record {
      total = length recent;
      success = count (λ r. run_is_success r.status) recent;
      failed = count (λ r. run_is_permanently_failed r.status) recent;
    }

pub record QueueStats : Type 0 where
  pub queued_runs : ℕ
  pub queued_attempts : ℕ
  pub running_attempts : ℕ
  pub active_workers : ℕ
  pub dead_workers : ℕ
  pub total_jobs : ℕ
  pub active_jobs : ℕ

-- The counts of DashboardView.get.
unfoldable pub queue_stats : ℕ → Database → QueueStats
queue_stats now db = record {
  queued_runs = count (λ r. run_is_queued r.status) db.runs;
  queued_attempts = count (λ a. attempt_is_queued a.status) db.attempts;
  running_attempts = count (λ a. attempt_is_running a.status) db.attempts;
  active_workers =
      count (λ w. worker_is_active w.status && leb (now - 60 * second) w.last_heartbeat_at)
        db.workers;
  dead_workers = count (λ w. if worker_is_active w.status then false else true) db.workers;
  total_jobs = count (λ j. job_is_listed j.status) db.jobs;
  active_jobs = count (λ j. job_is_active j.status) db.jobs;
}
