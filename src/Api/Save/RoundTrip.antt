-- ===== src/Api/Save/RoundTrip.antt =====
-- A job that is created, shown, and sent back as it was shown.
use job_schedular.Base.{
  ℕ, suc, ◌<◌, ◌≡◌, refl, sym, ◌⊎◌, subst, inl, inr, true, false, Option, none, some, List, [], ◌∷◌,
  arith, ◌==◌, ==-refl, str_eq, Option-cases, All, List-cases,
}
use job_schedular.Table.{find?, update, insert}
use job_schedular.Models.{Job, Database}
use job_schedular.Scheduler.Tick.{Calendar}
use job_schedular.Api.Serializer.{JobData, JobError, Checks, sent_back, validate, serializer_errors}
use job_schedular.Api.Serializer.Fields.{IsChecked, IsChecked-of_fields, serializer_errors-nil}
use job_schedular.Api.Save.{
  SaveResult, http_200, http_201, schedule_changed, with_fields, policy_of, serializer_next_run,
  with_policy, save_job, update_with, update_job, patch_found, patch_job, insert_job, create_job,
  post_job,
}
use job_schedular.Api.Save.Schedule.{str_eq_refl, same_schedule_type_refl, same_option_refl}
use job_schedular.Api.Save.SentBack.{accepted}
use job_schedular.Api.Save.Created.{policied, policied_fields, is_created}

-- What is sent back is what the row has.
schedule_unchanged : (job : Job) → schedule_changed job (sent_back job) ≡ false
unfolding schedule_changed sent_back
schedule_unchanged job =
    rw
      (
        same_schedule_type_refl job.schedule_type,
        same_option_refl str_eq str_eq_refl job.cron_expression,
        same_option_refl ◌==◌ ==-refl job.run_at,
        str_eq_refl job.timezone,
      )
      refl

-- A job that is sent back is saved as it was.
update_unchanged :
    (cal : Calendar) (now saved_at : ℕ) (job : Job) (db : Database)
    → update_job cal now saved_at (sent_back job) job db
      ≡ save_job saved_at job (some job.next_run_at) db
unfolding update_job update_with policy_of with_policy with_fields sent_back
update_unchanged cal now saved_at job db = rw (schedule_unchanged job) refl

-- The row that was inserted is the one with the new id.
find?-created :
    (job : Job) (jobs : List Job)
    → All (λ j. j.id < job.id) jobs
    → find? (λ j. j.id == job.id) (insert job jobs) ≡ some job
unfolding find?
find?-created job [] below = ground (arith, ==-refl job.id)
find?-created job (j ∷ jobs) below = ground (arith, find?-created job jobs below.1, below.0)

-- The row with `updated_at`, and the answer to a change that changes nothing else.
abbrev pub SavedAgain : ℕ → Job → Database → Database × SaveResult
SavedAgain saved_at job after =
    let saved = record job { updated_at = saved_at } in
    (record after { jobs = update (λ j. j.id == job.id) (λ _. saved) after.jobs }, http_200 saved)

patch_unchanged :
    (c : Checks) (cal : Calendar) (rechecked renow saved_at : ℕ) (job : Job) (db : Database)
    → find? (λ j. j.id == job.id) db.jobs ≡ some job
    → serializer_errors c true [] (some job.id) rechecked db (sent_back job) ≡ []
    → patch_job c cal [] job.id rechecked renow saved_at (sent_back job) db
      ≡ SavedAgain saved_at job db
unfolding patch_job patch_found save_job
patch_unchanged c cal rechecked renow saved_at job db found clean =
    rw (found, patch_found) (rw clean (update_unchanged cal renow saved_at job db))

-- If the ids of jobs are below the next one, and zoneinfo knows UTC: a request for a new job creates none, or
-- the job that it answers, sent back as it was shown in a request for a change, is accepted and saved as it is,
-- but for the time of the update; at any time at which the data would still be valid.
pub post-patch_job :
    (c : Checks) (cal : Calendar) (refused : List JobError)
    (checked now created_at rechecked renow saved_at : ℕ) (d : JobData) (db : Database)
    → All (λ j. j.id < db.next_id) db.jobs
    → c.is_zone "UTC" ≡ true
    → validate rechecked d ≡ []
    → let (after, result) = post_job c cal refused checked now created_at d db in
      (is_created result ≡ false)
      ⊎ ((job : Job) × (result ≡ http_201 job)
          × (patch_job c cal [] job.id rechecked renow saved_at (sent_back job) after
              ≡ SavedAgain saved_at job after))
unfolding post_job create_job insert_job
post-patch_job c cal refused checked now created_at rechecked renow saved_at d db below utc still =
    elim (List-cases (serializer_errors c false refused none checked db d)) [
      | inr (e, es, q) ↦ rw (q, post_job) (inl refl)
      | inl clean ↦
          let (fields, together) = serializer_errors-nil c false refused none checked db d clean in
          let ok = IsChecked-of_fields c checked db d fields together in
          rw (clean, post_job)
            (elim (Option-cases
              (serializer_next_run cal now (policied d.retry_policy db.next_id created_at d))) [
                | inl e ↦ rw e (inl refl)
                | inr (next, e) ↦ rw e (inr (_, refl, patched ok next))
              ])
    ]
  where
    patched :
        IsChecked c checked db d
        → (next : Option ℕ)
        → let job = record (policied d.retry_policy db.next_id created_at d) {
          next_run_at = next;
        } in
          let after = record db { jobs = insert job db.jobs; next_id = suc db.next_id } in
          patch_job c cal [] job.id rechecked renow saved_at (sent_back job) after
          ≡ SavedAgain saved_at job after
    patched ok next =
        patch_unchanged c cal rechecked renow saved_at job after
          (find?-created job db.jobs (subst (λ n. All (λ j. j.id < n) db.jobs) (sym id) below))
          (subst (λ n. serializer_errors c true [] (some n) rechecked after (sent_back job) ≡ [])
            (sym id)
            (accepted c checked db d ok d.retry_policy db.next_id created_at next after rechecked
              refl utc still))
      where
        job : Job
        job = record (policied d.retry_policy db.next_id created_at d) { next_run_at = next }

        after : Database
        after = record db { jobs = insert job db.jobs; next_id = suc db.next_id }

        id : job.id ≡ db.next_id
        id = (policied_fields d.retry_policy db.next_id created_at d).7
