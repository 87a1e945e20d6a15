-- ===== src/Api/Tests.antt =====
-- The theorems about the endpoints on concrete requests.
use job_schedular.Base.{
  ◌⊎◌, false, ◌≡◌, refl, true, none, some, [], ◌∷◌, arith, ◌==◌, ◌+◌, str_eq, All,
}
use job_schedular.Table.{find?}
use job_schedular.Models.{Job, Database}
use job_schedular.Models.Samples.{nightly}
use job_schedular.Models.Status.{ScheduleType}
use job_schedular.Worker.Executor.{builtin_handlers}
use job_schedular.Scheduler.Tick.{Calendar, CronTime, calculate_next_run}
use job_schedular.Api.Save.Timezone.{in_zone, zone_ignored}
use job_schedular.Api.Serializer.{JobData, Checks, sent_back, validate}
use job_schedular.Api.Save.{
  http_200, http_201, exception, serializer_next_run, update_job, post_job, patch_job,
}
use job_schedular.Api.Save.Created.{is_created, IsCreation, post_job-IsCreation}
use job_schedular.Api.Save.Stale.{IsRestored, update_job-restores}
use job_schedular.Api.Save.RoundTrip.{SavedAgain, post-patch_job}
use job_schedular.Api.Save.Changed.{is_updated, IsUpdate, patch_job-IsUpdate}
use job_schedular.Api.Save.Unchecked.{
  no_fields, only_run_at, only_max_attempts, patch_run_at_unchecked, patch_max_attempts-exception,
}
use job_schedular.Api.Jobs.{delete_job}

abbrev hourly : Calendar
hourly = record {
  next = λ expression after. some (CronTime.aware (after + 3600000000));
  zone = λ name. none;
}

-- Every expression is taken, and UTC alone.
abbrev lenient : Checks
lenient = record { is_cron = λ e. true; is_zone = λ z. str_eq z "UTC"; registry = builtin_handlers }

abbrev one_job : Database
one_job = record {
  jobs = nightly ∷ [];
  runs = [];
  attempts = [];
  workers = [];
  events = [];
  next_id = 8;
}

-- A job that is to run once, at 900.
abbrev once : Job
once = record nightly {
  schedule_type = ScheduleType.one_time;
  cron_expression = none;
  run_at = some 900;
  next_run_at = some 900;
}

abbrev once_db : Database
once_db = record one_job { jobs = once ∷ [] }

abbrev invoices : JobData
invoices = record no_fields {
  name = some "send_invoices";
  description = some "monthly";
  schedule_type = some ScheduleType.one_time;
  run_at = some (some 900);
  handler = some "billing_reconciliation";
}

post_job-IsCreation_example :
    IsCreation lenient 600 one_job (post_job lenient hourly [] 600 601 602 invoices one_job)
post_job-IsCreation_example = post_job-IsCreation lenient hourly [] 600 601 602 invoices one_job

patch_job-IsUpdate_example :
    IsUpdate hourly 601 602
      (only_run_at 950)
      once_db
      (find? (λ j. j.id == 7) once_db.jobs)
      (patch_job lenient hourly [] 7 600 601 602 (only_run_at 950) once_db)
patch_job-IsUpdate_example =
    patch_job-IsUpdate lenient hourly [] 7 600 601 602 (only_run_at 950) once_db

once_found : find? (λ j. j.id == 7) once_db.jobs ≡ some once
unfolding find?
once_found = refl

-- 100 is long over.
patch_run_at_unchecked_example :
    (patch_job lenient hourly [] 7 600 601 602 (only_run_at 100) once_db).1
    ≡ http_200 (record once { run_at = some 100; next_run_at = some 100; updated_at = 602 })
patch_run_at_unchecked_example =
    patch_run_at_unchecked lenient hourly 7 600 601 602 900 100 once_db once once_found refl refl
      refl

patch_max_attempts-exception_example :
    patch_job lenient hourly [] 7 600 601 602 (only_max_attempts 5) once_db ≡ (once_db, exception)
patch_max_attempts-exception_example =
    patch_max_attempts-exception lenient hourly 7 600 601 602 5 once_db once once_found
      (omega arith) (omega arith)

-- The job is deleted between the reading and the saving of a change of its time.
update_job-restores_example :
    let (after, result) =
      update_job hourly 601 602 (only_run_at 950) once (delete_job 7 600 once_db).0 in
    ((after ≡ (delete_job 7 600 once_db).0) × (is_updated result ≡ false))
    ⊎ All (IsRestored (only_run_at 950) once) after.jobs
update_job-restores_example =
    update_job-restores hourly 601 602 (only_run_at 950) once (delete_job 7 600 once_db).0

post-patch_job_example :
    let (after, result) = post_job lenient hourly [] 600 601 602 invoices one_job in
    (is_created result ≡ false)
    ⊎ ((job : Job) × (result ≡ http_201 job)
        × (patch_job lenient hourly [] job.id 700 701 702 (sent_back job) after
            ≡ SavedAgain 702 job after))
unfolding validate
post-patch_job_example =
    post-patch_job lenient hourly [] 600 601 602 700 701 702 invoices one_job (omega arith, tt) refl
      refl

zone_ignored_example :
    (serializer_next_run hourly 600 (in_zone "America/New_York" nightly)
      ≡ serializer_next_run hourly 600 nightly)
    × (calculate_next_run hourly (in_zone "America/New_York" nightly) 600
        ≡ calculate_next_run hourly nightly 600)
zone_ignored_example = zone_ignored hourly (λ e after. refl) "America/New_York" nightly 600
