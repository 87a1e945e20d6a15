-- ===== src/Api/Save.antt =====
-- apps/jobs/serializers.py: `create` and `update` of JobSerializer; and the endpoints of
-- apps/jobs/views.py that call them.
pub mod Created
pub mod Changed
pub mod Schedule
pub mod Unchecked
pub mod Limits
pub mod Stale
pub mod Timezone
pub mod SentBack
pub mod RoundTrip
use job_schedular.Base.{
  ℕ, suc, Bool, true, false, not, ◌||◌, ◌&&◌, Option, none, some, List, [], ◌∷◌, String, ◌==◌,
  str_eq, if◌then◌else◌,
}
use job_schedular.Table.{find?, update, insert}
use job_schedular.Models.{Job, Database}
use job_schedular.Models.Status.{ScheduleType, BackoffType, JobStatus}
use job_schedular.Scheduler.Tick.{CronTime, aware, naive, Calendar}
use job_schedular.Api.Serializer.{RetryData, JobData, JobError, Checks, serializer_errors}

-- What an endpoint answers: the job, the errors of the serializer, or nothing found. `exception` is
-- one that nobody catches, an answer with status 500.
pub data SaveResult : Type 0 where
  http_200 http_201 : Job → SaveResult
  http_400 : List JobError → SaveResult
  http_404 exception : SaveResult

abbrev pub default_to : {A : Type 0} → A → Option A → A
default_to d none = d
default_to d (some v) = v

abbrev pub default_null : {A : Type 0} → Option A → Option (Option A) → Option A
default_null d none = d
default_null d (some v) = v

-- `retry_policy` as `create` and `update` read it: an empty dictionary counts as none, and a key that
-- is missing is a KeyError.
pub data Policy : Type 0 where
  no_policy key_error : Policy
  policy : ℕ → BackoffType → ℕ → Policy

unfoldable pub is_empty_policy : RetryData → Bool
is_empty_policy r = elim r.max_attempts [
  | some n ↦ false
  | none ↦ elim r.backoff [
    | some b ↦ false
    | none ↦ elim r.base_delay_seconds [ some n ↦ false | none ↦ true ]
  ]
]

abbrev pub all_keys : Option ℕ → Option BackoffType → Option ℕ → Policy
all_keys (some n) (some b) (some s) = policy n b s
all_keys _ _ _ = key_error

-- In a full validation the declared defaults fill the keys that are missing.
unfoldable pub policy_of : Bool → Option RetryData → Policy
policy_of partial none = no_policy
policy_of true (some r) =
    if is_empty_policy r then no_policy else all_keys r.max_attempts r.backoff r.base_delay_seconds
policy_of false (some r) =
    policy (default_to 1 r.max_attempts) (default_to BackoffType.fixed r.backoff)
      (default_to 30 r.base_delay_seconds)

unfoldable pub with_policy : Policy → Job → Job
with_policy (policy n b s) job = record job {
  retry_limit = n;
  retry_backoff_type = b;
  retry_base_delay_seconds = s;
}
with_policy _ job = job

-- The database keeps a naive time as one in UTC, the TIME_ZONE of the settings.
abbrev pub in_utc : CronTime → ℕ
in_utc (aware t) = t
in_utc (naive t) = t

-- `_calculate_next_run`; `none` is an exception of croniter.
unfoldable pub serializer_next_run : Calendar → ℕ → Job → Option (Option ℕ)
serializer_next_run c now job = elim job.schedule_type [
  | ScheduleType.one_time ↦ some job.run_at
  | ScheduleType.cron ↦ elim (c.next job.cron_expression now) [
    | none ↦ none
    | some t ↦ some (some (in_utc t))
  ]
]

-- `Job(**validated_data)`: the columns that are not given have the defaults of the model. A required
-- one is there after the validation.
unfoldable pub job_of : ℕ → ℕ → JobData → Job
job_of id created_at d = record {
  id = id;
  name = default_to "" d.name;
  description = default_to "" d.description;
  schedule_type = default_to ScheduleType.cron d.schedule_type;
  cron_expression = default_null none d.cron_expression;
  run_at = default_null none d.run_at;
  timezone = default_to "UTC" d.timezone;
  priority = default_to "MEDIUM" d.priority;
  timeout_seconds = default_to 300 d.timeout_seconds;
  handler = default_to "" d.handler;
  retry_limit = 1;
  retry_backoff_type = BackoffType.fixed;
  retry_base_delay_seconds = 30;
  status = JobStatus.active;
  next_run_at = none;
  last_run_at = none;
  created_at = created_at;
  updated_at = created_at;
}

-- `job.save()` of a new row, with the next occurrence.
unfoldable pub insert_job : Job → Option (Option ℕ) → Database → Database × SaveResult
insert_job job none db = (db, exception)
insert_job job (some next) db =
    let saved = record job { next_run_at = next } in
    (record db { jobs = insert saved db.jobs; next_id = suc db.next_id }, http_201 saved)

-- `create`. A row's creation and its `updated_at` are one reading of the clock here.
unfoldable pub create_job : Calendar → ℕ → ℕ → JobData → Database → Database × SaveResult
create_job c now created_at d db =
    let job = with_policy (policy_of false d.retry_policy) (job_of db.next_id created_at d) in
    insert_job job (serializer_next_run c now job) db

-- JobListView.post.
unfoldable pub post_job :
    Checks → Calendar → List JobError → ℕ → ℕ → ℕ → JobData → Database → Database × SaveResult
post_job checks c refused validated now created_at d db =
    elim (serializer_errors checks false refused none validated db d) [
      | [] ↦ create_job c now created_at d db
      | e ∷ es ↦ (db, http_400 (e ∷ es))
    ]

abbrev pub same_schedule_type : ScheduleType → ScheduleType → Bool
same_schedule_type ScheduleType.cron ScheduleType.cron = true
same_schedule_type ScheduleType.one_time ScheduleType.one_time = true
same_schedule_type _ _ = false

abbrev pub same_option : {A : Type 0} → (A → A → Bool) → Option A → Option A → Bool
same_option eq none none = true
same_option eq (some a) (some b) = eq a b
same_option eq _ _ = false

-- A field that is sent and differs from the row.
abbrev pub changes : {A : Type 0} → (A → A → Bool) → A → Option A → Bool
changes eq old none = false
changes eq old (some v) = not (eq old v)

unfoldable pub schedule_changed : Job → JobData → Bool
schedule_changed job d =
    changes same_schedule_type job.schedule_type d.schedule_type
    || (changes (same_option str_eq) job.cron_expression d.cron_expression
        || (changes (same_option ◌==◌) job.run_at d.run_at
            || changes str_eq job.timezone d.timezone))

unfoldable pub with_fields : JobData → Job → Job
with_fields d job = record job {
  schedule_type = default_to job.schedule_type d.schedule_type;
  cron_expression = default_null job.cron_expression d.cron_expression;
  run_at = default_null job.run_at d.run_at;
  timezone = default_to job.timezone d.timezone;
  name = default_to job.name d.name;
  description = default_to job.description d.description;
  priority = default_to job.priority d.priority;
  timeout_seconds = default_to job.timeout_seconds d.timeout_seconds;
  handler = default_to job.handler d.handler;
}

-- `instance.save()`, which writes the whole row.
unfoldable pub save_job : ℕ → Job → Option (Option ℕ) → Database → Database × SaveResult
save_job saved_at job none db = (db, exception)
save_job saved_at job (some next) db =
    let saved = record job { next_run_at = next; updated_at = saved_at } in
    (record db { jobs = update (λ j. j.id == job.id) (λ _. saved) db.jobs }, http_200 saved)

-- `update`, with the policy that it read.
unfoldable pub update_with :
    Calendar → ℕ → ℕ → JobData → Job → Database → Policy → Database × SaveResult
update_with c now saved_at d job db key_error = (db, exception)
update_with c now saved_at d job db p =
    let changed = with_fields d (with_policy p job) in
    save_job saved_at changed
      (if schedule_changed job d then serializer_next_run c now changed else some job.next_run_at)
      db

unfoldable pub update_job : Calendar → ℕ → ℕ → JobData → Job → Database → Database × SaveResult
update_job c now saved_at d job db =
    update_with c now saved_at d job db (policy_of true d.retry_policy)

-- JobDetailView.patch, on the job that was found.
unfoldable pub patch_found :
    Checks
    → Calendar
    → List JobError
    → ℕ
    → ℕ
    → ℕ
    → JobData
    → Database
    → Option Job
    → Database × SaveResult
patch_found checks c refused validated now saved_at d db none = (db, http_404)
patch_found checks c refused validated now saved_at d db (some job) =
    elim (serializer_errors checks true refused (some job.id) validated db d) [
      | [] ↦ update_job c now saved_at d job db
      | e ∷ es ↦ (db, http_400 (e ∷ es))
    ]

unfoldable pub patch_job :
    Checks → Calendar → List JobError → ℕ → ℕ → ℕ → ℕ → JobData → Database → Database × SaveResult
patch_job checks c refused job_id validated now saved_at d db =
    patch_found checks c refused validated now saved_at d db (find? (λ j. j.id == job_id) db.jobs)
