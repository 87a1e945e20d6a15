-- ===== src/Api/Jobs.antt =====
-- apps/jobs/views.py: the endpoints that write jobs, runs and attempts.
use Prim.Native.String.{compare}
use text.Mathlib.Text.{is_lt}
use job_schedular.Base.{
  ◌≡◌, false, ℕ, suc, Bool, true, not, ◌&&◌, Option, none, some, List, String, str_eq, ◌==◌,
  if◌then◌else◌,
}
use job_schedular.Table.{select, exists, find?, update, insert}
use job_schedular.OrderBy.{OrderBy}
use job_schedular.Models.{Job, Database, new_run, new_attempt}
use job_schedular.Models.Status.{JobStatus, job_is_active, job_is_listed}

-- The status codes that the endpoints answer with.
pub data Response (A : Type 0) : Type 0 where
  http_200 http_201 : A → Response A
  http_204 http_400 http_404 : Response A

-- `_get_job`, and `Job.objects.get(id=job_id)`.
abbrev pub get_job : ℕ → Database → Option Job
get_job job_id db = find? (λ j. j.id == job_id) db.jobs

-- JobDetailView.get.
unfoldable pub show_job : ℕ → Database → Response Job
show_job job_id db = elim (get_job job_id db) [ none ↦ http_404 | some job ↦ http_200 job ]

unfoldable pub deactivated : ℕ → Job → Job
deactivated now job = record job { status = JobStatus.inactive; updated_at = now }

-- `job.save()` writes the whole row as it was read, with `updated_at` set to `now`.
unfoldable pub delete_found : ℕ → Database → Option Job → Database × Response Unit
delete_found now db none = (db, http_404)
delete_found now db (some job) =
    (record db { jobs = update (λ j. j.id == job.id) (λ _. deactivated now job) db.jobs }, http_204)

-- JobDetailView.delete.
unfoldable pub delete_job : ℕ → ℕ → Database → Database × Response Unit
delete_job job_id now db = delete_found now db (get_job job_id db)

-- The ids of the run and of the attempt in the answer of a trigger.
pub record Triggered : Type 0 where
  pub run_id : ℕ
  pub attempt_id : ℕ

-- The two rows that a trigger writes, each in a transaction of its own.
unfoldable pub create_run : (ℕ → ℕ) → Job → ℕ → Database → Database
create_run clock job scheduled_for db = record db {
  runs = insert (new_run db.next_id job.id scheduled_for (clock db.next_id)) db.runs;
  next_id = suc db.next_id;
}

unfoldable pub create_first_attempt : (ℕ → ℕ) → Job → ℕ → ℕ → Database → Database
create_first_attempt clock job run_id scheduled_for db = record db {
  attempts =
      insert (new_attempt db.next_id run_id job.id 1 job.priority scheduled_for (clock db.next_id))
        db.attempts;
  next_id = suc db.next_id;
}

-- The database refuses an attempt whose run or job is gone, as the foreign keys say.
unfoldable pub try_first_attempt : (ℕ → ℕ) → Job → ℕ → ℕ → Database → Database
try_first_attempt clock job run_id scheduled_for db =
    if exists (λ r. r.id == run_id) db.runs && exists (λ j. j.id == job.id) db.jobs
    then create_first_attempt clock job run_id scheduled_for db
    else db

unfoldable pub trigger_found :
    (ℕ → ℕ) → ℕ → ℕ → Database → Option Job → Database × Response Triggered
trigger_found clock now later db none = (db, http_404)
trigger_found clock now later db (some job) =
    if not (job_is_active job.status) then (db, http_400) else (
      create_first_attempt clock job db.next_id later (create_run clock job now db),
      http_201 (record { run_id = db.next_id; attempt_id = suc db.next_id }),
    )

-- JobTriggerView.post, with the two readings of the clock for `scheduled_for`.
unfoldable pub trigger_job : (ℕ → ℕ) → ℕ → ℕ → ℕ → Database → Database × Response Triggered
trigger_job clock job_id now later db = trigger_found clock now later db (get_job job_id db)

-- A query parameter filters only if it is given and not empty.
abbrev pub matches : Option String → String → Bool
matches none s = true
matches (some q) s = if str_eq q "" then true else str_eq s q

abbrev pub job_status_text : JobStatus → String
job_status_text JobStatus.active = "ACTIVE"
job_status_text JobStatus.inactive = "INACTIVE"
job_status_text JobStatus.deleted = "DELETED"

-- Meta.ordering of a job: by name.
abbrev pub ByName : Job → Job → Type 0
ByName a b = is_lt (compare b.name a.name) ≡ false

-- JobListView.get.
unfoldable pub list_jobs : OrderBy ByName → Option String → Option String → Database → List Job
list_jobs o status priority db = o.sort (
    select
      (λ j.
        job_is_listed j.status
        && (matches status (job_status_text j.status) && matches priority j.priority))
      db.jobs)
