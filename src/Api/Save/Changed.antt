-- ===== src/Api/Save/Changed.antt =====
-- What the endpoint for changes does to a job.
use job_schedular.Base.{
  ℕ, ◌≡◌, refl, sym, ◌∙◌, ◌⊎◌, inl, inr, Bool, true, false, Option, none, some, List, ◌==◌,
  if◌then◌else◌, Bool-cases, Option-cases, List-cases, arith,
}
use mathlib.Core.Option.{some-injective, none-ne-some}
use job_schedular.Table.{find?, update}
use job_schedular.Models.{Job, Database}
use job_schedular.Models.Status.{ScheduleType, BackoffType}
use job_schedular.Scheduler.Tick.{Calendar, CronTime}
use job_schedular.Api.Serializer.{JobData, JobError, RetryData, Checks, serializer_errors}
use job_schedular.Api.Save.{
  SaveResult, http_200, default_to, Policy, no_policy, key_error, policy, policy_of, with_policy,
  is_empty_policy, in_utc, serializer_next_run, schedule_changed, with_fields, save_job,
  update_with, update_job, patch_found, patch_job,
}
use job_schedular.Api.Save.Schedule.{
  IsScheduled, IsSameSchedule, unchanged-IsSameSchedule, IsSameSchedule→unchanged,
}

-- The columns of the retry policy are those of the policy sent, which has all three, or as they were.
abbrev pub IsPolicied : Option RetryData → Job → Job → Type 0
IsPolicied sent old new =
    (((sent ≡ none)
        ⊎ ((r : RetryData) × (sent ≡ some r)
            × (r.max_attempts ≡ none)
            × (r.backoff ≡ none)
            × (r.base_delay_seconds ≡ none)))
      × (new.retry_limit ≡ old.retry_limit)
      × (new.retry_backoff_type ≡ old.retry_backoff_type)
      × (new.retry_base_delay_seconds ≡ old.retry_base_delay_seconds))
    ⊎ ((r : RetryData) × (sent ≡ some r)
        × (r.max_attempts ≡ some new.retry_limit)
        × (r.backoff ≡ some new.retry_backoff_type)
        × (r.base_delay_seconds ≡ some new.retry_base_delay_seconds))

-- The next occurrence after `now`, by the columns of the row.
abbrev pub IsNext : Calendar → ℕ → Job → Type 0
IsNext cal now new =
    ((new.schedule_type ≡ ScheduleType.one_time) × (new.next_run_at ≡ new.run_at))
    ⊎ ((new.schedule_type ≡ ScheduleType.cron)
        × ((t : CronTime) × (cal.next new.cron_expression now ≡ some t)
            × (new.next_run_at ≡ some (in_utc t))))

-- Every column of the row after a change. The next occurrence is kept if no column of the schedule has
-- changed, and computed from the new row if one has.
pub record IsChanged (cal : Calendar) (now saved_at : ℕ) (d : JobData) (old new : Job)
    : Type 0 where
  pub id : new.id ≡ old.id
  pub status : new.status ≡ old.status
  pub last_run_at : new.last_run_at ≡ old.last_run_at
  pub created_at : new.created_at ≡ old.created_at
  pub updated_at : new.updated_at ≡ saved_at
  pub name : new.name ≡ default_to old.name d.name
  pub description : new.description ≡ default_to old.description d.description
  pub priority : new.priority ≡ default_to old.priority d.priority
  pub timeout_seconds : new.timeout_seconds ≡ default_to old.timeout_seconds d.timeout_seconds
  pub handler : new.handler ≡ default_to old.handler d.handler
  pub schedule : IsScheduled d old new
  pub retry_policy : IsPolicied d.retry_policy old new
  pub next :
      (IsSameSchedule old new × (new.next_run_at ≡ old.next_run_at))
      ⊎ ((¬ IsSameSchedule old new) × IsNext cal now new)

abbrev pub is_updated : SaveResult → Bool
is_updated (http_200 job) = true
is_updated _ = false

abbrev pub IsUpdate :
    Calendar → ℕ → ℕ → JobData → Database → Option Job → Database × SaveResult → Type 0
IsUpdate cal now saved_at d db old r =
    ((r.0 ≡ db) × (is_updated r.1 ≡ false))
    ⊎ ((job new : Job) × (old ≡ some job)
        × (r ≡ (record db { jobs = update (λ j. j.id == new.id) (λ _. new) db.jobs }, http_200 new))
        × IsChanged cal now saved_at d job new)

next_of :
    (cal : Calendar) (now : ℕ) (job : Job) (next : Option ℕ)
    → serializer_next_run cal now job ≡ some next
    → ((job.schedule_type ≡ ScheduleType.one_time) × (next ≡ job.run_at))
      ⊎ ((job.schedule_type ≡ ScheduleType.cron)
          × ((t : CronTime) × (cal.next job.cron_expression now ≡ some t)
              × (next ≡ some (in_utc t))))
unfolding serializer_next_run
next_of cal now job next = by_type job.schedule_type refl
  where
    by_cron :
        (o : Option CronTime)
        → cal.next job.cron_expression now ≡ o
        → job.schedule_type ≡ ScheduleType.cron
        → serializer_next_run cal now job ≡ some next
        → ((job.schedule_type ≡ ScheduleType.one_time) × (next ≡ job.run_at))
          ⊎ ((job.schedule_type ≡ ScheduleType.cron)
              × ((t : CronTime) × (cal.next job.cron_expression now ≡ some t)
                  × (next ≡ some (in_utc t))))
    by_cron none q k e = absurd (none-ne-some next (sym (rw (k, q, serializer_next_run) refl) ∙ e))
    by_cron (some t) q k e =
        let computed : serializer_next_run cal now job ≡ some (some (in_utc t)) =
          rw (k, q, serializer_next_run) refl in
        inr (k, (t, q, some-injective _ _ (sym e ∙ computed)))

    by_type :
        (t : ScheduleType)
        → job.schedule_type ≡ t
        → serializer_next_run cal now job ≡ some next
        → ((job.schedule_type ≡ ScheduleType.one_time) × (next ≡ job.run_at))
          ⊎ ((job.schedule_type ≡ ScheduleType.cron)
              × ((t : CronTime) × (cal.next job.cron_expression now ≡ some t)
                  × (next ≡ some (in_utc t))))
    by_type ScheduleType.one_time k e =
        let computed : serializer_next_run cal now job ≡ some job.run_at = rw k refl in
        inl (k, some-injective _ _ (sym e ∙ computed))
    by_type ScheduleType.cron k e = by_cron _ refl k e

module _ (cal : Calendar) (now saved_at : ℕ) (d : JobData) (job : Job) (db : Database) where
  abbrev changed : Policy → Job
  changed p = with_fields d (with_policy p job)

  abbrev saved : Policy → Option ℕ → Job
  saved p next = record (changed p) { next_run_at = next; updated_at = saved_at }

  saved-IsScheduled : (p : Policy) (next : Option ℕ) → IsScheduled d job (saved p next)
  unfolding with_fields with_policy
  saved-IsScheduled p next = by_policy p
    where
      by_policy : (p : Policy) → IsScheduled d job (saved p next)
      by_policy no_policy = record {
        schedule_type = refl;
        cron_expression = refl;
        run_at = refl;
        timezone = refl;
      }
      by_policy key_error = record {
        schedule_type = refl;
        cron_expression = refl;
        run_at = refl;
        timezone = refl;
      }
      by_policy (policy n b s) = record {
        schedule_type = refl;
        cron_expression = refl;
        run_at = refl;
        timezone = refl;
      }

  -- What is computed for the row is its next occurrence.
  computed-IsNext :
      (p : Policy) (next : Option ℕ)
      → serializer_next_run cal now (changed p) ≡ some next
      → IsNext cal now (saved p next)
  computed-IsNext p next e = next_of cal now (changed p) next e

  -- The other columns.
  kept :
      (p : Policy)
      → ((changed p).id ≡ job.id)
        × ((changed p).status ≡ job.status)
        × ((changed p).last_run_at ≡ job.last_run_at)
        × ((changed p).created_at ≡ job.created_at)
        × ((changed p).name ≡ default_to job.name d.name)
        × ((changed p).description ≡ default_to job.description d.description)
        × ((changed p).priority ≡ default_to job.priority d.priority)
        × ((changed p).timeout_seconds ≡ default_to job.timeout_seconds d.timeout_seconds)
        × ((changed p).handler ≡ default_to job.handler d.handler)
        × ((changed p).next_run_at ≡ job.next_run_at)
  unfolding with_fields with_policy
  kept no_policy = (refl, refl, refl, refl, refl, refl, refl, refl, refl, refl)
  kept key_error = (refl, refl, refl, refl, refl, refl, refl, refl, refl, refl)
  kept (policy n b s) = (refl, refl, refl, refl, refl, refl, refl, refl, refl, refl)

  Chosen : Policy → Option ℕ → Type 0
  Chosen p next =
      ((schedule_changed job d ≡ false) × (next ≡ job.next_run_at))
      ⊎ ((schedule_changed job d ≡ true) × (serializer_next_run cal now (changed p) ≡ some next))

  differs_not : schedule_changed job d ≡ false → schedule_changed job d ≡ true → ⊥
  differs_not f t = ground arith

  unless_changed :
      (p : Policy) (next : Option ℕ)
      → Chosen p next
      → (IsSameSchedule job (saved p next) × (next ≡ job.next_run_at))
        ⊎ ((¬ IsSameSchedule job (saved p next)) × IsNext cal now (saved p next))
  unfolding Chosen
  unless_changed p next (inl (same, kept_next)) =
      inl (unchanged-IsSameSchedule d job (saved p next) (saved-IsScheduled p next) same, kept_next)
  unless_changed p next (inr (differs, e)) = inr (
    λ same.
        differs_not (IsSameSchedule→unchanged d job (saved p next) (saved-IsScheduled p next) same)
          differs,
    computed-IsNext p next e,
  )

  -- The columns of the policy are written, if it is one.
  policied :
      (sent : Option RetryData)
      → (policy_of true sent ≡ key_error)
        ⊎ ((next : Option ℕ) → IsPolicied sent job (saved (policy_of true sent) next))
  unfolding policy_of is_empty_policy with_policy with_fields
  policied none = inr (λ next. inl (inl refl, refl, refl, refl))
  policied (some r) = of_fields r.max_attempts r.backoff r.base_delay_seconds
    where
      of_fields :
          (n : Option ℕ) (b : Option BackoffType) (s : Option ℕ)
          → let sent : Option RetryData =
              some (record { max_attempts = n; backoff = b; base_delay_seconds = s }) in
            (policy_of true sent ≡ key_error)
            ⊎ ((next : Option ℕ) → IsPolicied sent job (saved (policy_of true sent) next))
      of_fields none none none =
          inr (λ next. inl (inr (_, refl, refl, refl, refl), refl, refl, refl))
      of_fields (some n) (some b) (some s) = inr (λ next. inr (_, refl, refl, refl, refl))
      of_fields none none (some s) = inl refl
      of_fields none (some b) c = inl refl
      of_fields (some n) none c = inl refl
      of_fields (some n) (some b) none = inl refl

  module _ (p : Policy)
      (good : (next : Option ℕ) → IsPolicied d.retry_policy job (saved p next)) where
    saved-IsUpdate :
        (next : Option ℕ)
        → Chosen p next
        → IsUpdate cal now saved_at d db (some job) (save_job saved_at (changed p) (some next) db)
    unfolding save_job
    saved-IsUpdate next how = inr (
      job,
      saved p next,
      refl,
      refl,
      record {
        id = (kept p).0;
        status = (kept p).1;
        last_run_at = (kept p).2;
        created_at = (kept p).3;
        updated_at = refl;
        name = (kept p).4;
        description = (kept p).5;
        priority = (kept p).6;
        timeout_seconds = (kept p).7;
        handler = (kept p).8;
        schedule = saved-IsScheduled p next;
        retry_policy = good next;
        next = unless_changed p next how;
      },
    )

    save-IsUpdate : IsUpdate cal now saved_at d db (some job) (
        save_job saved_at
          (changed p)
          (if schedule_changed job d
            then serializer_next_run cal now (changed p)
            else some job.next_run_at)
          db)
    unfolding Chosen
    save-IsUpdate = elim (Bool-cases (schedule_changed job d)) [
      | inr same ↦ rw same (saved-IsUpdate job.next_run_at (inl (same, refl)))
      | inl differs ↦ rw differs (elim (Option-cases (serializer_next_run cal now (changed p))) [
        | inl e ↦ rw e (unfold save_job in inl (refl, refl))
        | inr (next, e) ↦ rw e (saved-IsUpdate next (inr (differs, e)))
      ])
    ]

  pub update_job-IsUpdate :
      IsUpdate cal now saved_at d db (some job) (update_job cal now saved_at d job db)
  unfolding update_job
  update_job-IsUpdate = elim (policied d.retry_policy) [
    | inl failed ↦ rw failed (unfold update_with in inl (refl, refl))
    | inr good ↦ by_policy (policy_of true d.retry_policy) good
  ]
    where
      by_policy :
          (p : Policy)
          → ((next : Option ℕ) → IsPolicied d.retry_policy job (saved p next))
          → IsUpdate cal now saved_at d db (some job) (update_with cal now saved_at d job db p)
      by_policy key_error good = unfold update_with in inl (refl, refl)
      by_policy no_policy good = unfold update_with in save-IsUpdate no_policy good
      by_policy (policy n b s) good = unfold update_with in save-IsUpdate (policy n b s) good

-- The row may have been read before the table was as it is now.
pub patch_found-IsUpdate :
    (c : Checks) (cal : Calendar) (refused : List JobError) (checked now saved_at : ℕ) (d : JobData)
    (db : Database) (old : Option Job)
    → IsUpdate cal now saved_at d db old (patch_found c cal refused checked now saved_at d db old)
unfolding patch_found
patch_found-IsUpdate c cal refused checked now saved_at d db none = inl (refl, refl)
patch_found-IsUpdate c cal refused checked now saved_at d db (some job) =
    elim (List-cases (serializer_errors c true refused (some job.id) checked db d)) [
      | inl clean ↦ rw (clean, patch_found) (update_job-IsUpdate cal now saved_at d job db)
      | inr (e, es, q) ↦ rw (q, patch_found) (inl (refl, refl))
    ]

-- A request for a change either writes nothing and answers with no job, or overwrites the row of the
-- job that was found with the one that it answers: id, status, last run and creation are kept, and each other
-- column is the one sent, where it is, or as it was; the retry policy is sent with all its columns; the
-- next occurrence is kept if the four columns of the schedule are as they were, and else it is that of the new row.
pub patch_job-IsUpdate :
    (c : Checks) (cal : Calendar) (refused : List JobError) (job_id checked now saved_at : ℕ)
    (d : JobData) (db : Database)
    → IsUpdate cal now saved_at d db
        (find? (λ j. j.id == job_id) db.jobs)
        (patch_job c cal refused job_id checked now saved_at d db)
unfolding patch_job
patch_job-IsUpdate c cal refused job_id checked now saved_at d db =
    patch_found-IsUpdate c cal refused checked now saved_at d db _
