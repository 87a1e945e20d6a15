-- ===== src/Api/Save/Created.antt =====
-- The jobs that the endpoint for creation writes.
use job_schedular.Base.{
  ℕ, suc, ◌≡◌, refl, ap, sym, ◌∙◌, ◌⊎◌, inl, inr, Bool, true, false, Option, none, some, List, [],
  arith, str_eq, Option-cases, List-cases,
}
use job_schedular.Table.{exists, insert}
use job_schedular.Models.{Job, Database}
use job_schedular.Models.Status.{ScheduleType}
use job_schedular.Worker.Executor.{Handler, get_handler}
use job_schedular.Scheduler.Tick.{Calendar}
use job_schedular.Api.Serializer.{
  RetryData, JobData, JobError, out_of_range, Checks, is_snake_case, check_optional,
  validate_retry_policy, serializer_errors,
}
use job_schedular.Api.Save.{
  SaveResult, http_201, default_to, default_null, policy_of, with_policy, serializer_next_run,
  job_of, insert_job, create_job, post_job,
}
use job_schedular.Api.Serializer.Fields.{
  Within, IsChecked, IsChecked-of_fields, append-eq_nil, check_range-nil, serializer_errors-nil,
}
use job_schedular.Api.Serializer.Schedule.{
  IsScheduled, next_of, data-IsScheduled, validated-of_validate,
}

pub record IsWellFormed (c : Checks) (now : ℕ) (j : Job) : Type 0 where
  pub schedule : IsScheduled c now j.schedule_type j.cron_expression j.run_at j.next_run_at
  pub name : is_snake_case j.name ≡ true
  pub handler : (f : Handler) × (get_handler j.handler c.registry ≡ some f)
  pub timeout : Within 10 7200 j.timeout_seconds
  pub retry_limit : Within 1 10 j.retry_limit
  pub base_delay : Within 1 3600 j.retry_base_delay_seconds

-- The retry columns are within their limits, the default ones too.
retry_limits :
    (rp : Option RetryData) (id created_at : ℕ) (d : JobData)
    → check_optional validate_retry_policy rp ≡ []
    → let j = with_policy (policy_of false rp) (job_of id created_at d) in
      Within 1 10 j.retry_limit × Within 1 3600 j.retry_base_delay_seconds
unfolding with_policy policy_of job_of validate_retry_policy
retry_limits none id created_at d h = ((omega arith, omega arith), (omega arith, omega arith))
retry_limits (some r) id created_at d h =
    let both = append-eq_nil (check_optional _ r.max_attempts) _ h in
    (
      check_range-nil 1 10 1 (out_of_range "max_attempts") r.max_attempts (omega arith, omega arith)
          both.0,
      check_range-nil 1 3600 30 (out_of_range "base_delay_seconds") r.base_delay_seconds
          (omega arith, omega arith) both.1,
    )

-- The other columns are those of the data.
abbrev pub policied : Option RetryData → ℕ → ℕ → JobData → Job
policied rp id created_at d = with_policy (policy_of false rp) (job_of id created_at d)

pub policied_fields :
    (rp : Option RetryData) (id created_at : ℕ) (d : JobData)
    → let j = policied rp id created_at d in
      (j.name ≡ default_to "" d.name)
      × (j.schedule_type ≡ default_to ScheduleType.cron d.schedule_type)
      × (j.cron_expression ≡ default_null none d.cron_expression)
      × (j.run_at ≡ default_null none d.run_at)
      × (j.handler ≡ default_to "" d.handler)
      × (j.timeout_seconds ≡ default_to 300 d.timeout_seconds)
      × (j.timezone ≡ default_to "UTC" d.timezone)
      × (j.id ≡ id)
unfolding with_policy policy_of job_of
policied_fields none id created_at d = (refl, refl, refl, refl, refl, refl, refl, refl)
policied_fields (some r) id created_at d = (refl, refl, refl, refl, refl, refl, refl, refl)

policied_next :
    (cal : Calendar) (now : ℕ) (rp : Option RetryData) (id created_at : ℕ) (d : JobData)
    (t : ScheduleType)
    → d.schedule_type ≡ some t
    → serializer_next_run cal now (policied rp id created_at d)
      ≡ next_of cal now t (default_null none d.cron_expression) (default_null none d.run_at)
unfolding serializer_next_run with_policy policy_of job_of
policied_next cal now none id created_at d ScheduleType.cron e = rw e refl
policied_next cal now none id created_at d ScheduleType.one_time e = rw e refl
policied_next cal now (some r) id created_at d ScheduleType.cron e = rw e refl
policied_next cal now (some r) id created_at d ScheduleType.one_time e = rw e refl

created-IsWellFormed :
    (c : Checks) (cal : Calendar) (checked now id created_at : ℕ) (d : JobData) (db : Database)
    (next : Option ℕ)
    → IsChecked c checked db d
    → serializer_next_run cal now (policied d.retry_policy id created_at d) ≡ some next
    → let job = record (policied d.retry_policy id created_at d) { next_run_at = next } in
      IsWellFormed c checked job × (exists (λ j. str_eq j.name job.name) db.jobs ≡ false)
created-IsWellFormed c cal checked now id created_at d db next ok e =
    let (v, named, fresh, snake) = ok.named in
    let (t, typed) = ok.typed in
    let (w, handled, (f, found)) = ok.handled in
    let fields = policied_fields d.retry_policy id created_at d in
    let name_eq = fields.0 ∙ ap (default_to "") named in
    let type_eq = fields.1 ∙ ap (default_to ScheduleType.cron) typed in
    let handler_eq = fields.4 ∙ ap (default_to "") handled in
    let limits = retry_limits d.retry_policy id created_at d ok.policy in
    (
      record {
        schedule =
            rw (type_eq, fields.2, fields.3)
              (data-IsScheduled c cal checked now t d.cron_expression d.run_at next
                (validated-of_validate checked d t typed ok.together) ok.crons
                (sym (policied_next cal now d.retry_policy id created_at d t typed) ∙ e));
        name = rw name_eq snake;
        handler = (f, rw handler_eq found);
        timeout = rw fields.5 ok.timeout;
        retry_limit = limits.0;
        base_delay = limits.1;
      },
      rw name_eq fresh,
    )

abbrev pub is_created : SaveResult → Bool
is_created (http_201 job) = true
is_created _ = false

-- Nothing is written and no job is answered; or the row that is answered is inserted, is well formed,
-- and has a name that no other row has.
abbrev pub IsCreation : Checks → ℕ → Database → Database × SaveResult → Type 0
IsCreation c checked db r =
    ((r.0 ≡ db) × (is_created r.1 ≡ false))
    ⊎ ((job : Job) × (r
          ≡ (record db { jobs = insert job db.jobs; next_id = suc db.next_id }, http_201 job))
        × IsWellFormed c checked job
        × (exists (λ j. str_eq j.name job.name) db.jobs ≡ false))

create_job-IsCreation :
    (c : Checks) (cal : Calendar) (checked now created_at : ℕ) (d : JobData) (db : Database)
    → IsChecked c checked db d
    → IsCreation c checked db (create_job cal now created_at d db)
unfolding create_job insert_job
create_job-IsCreation c cal checked now created_at d db ok =
    elim (Option-cases
      (serializer_next_run cal now (policied d.retry_policy db.next_id created_at d))) [
        | inl e ↦ rw e (inl (refl, refl))
        | inr (next, e) ↦
            let good =
              created-IsWellFormed c cal checked now db.next_id created_at d db next ok e in
            rw e (inr (_, refl, good.0, good.1))
      ]

-- A request for a new job either writes nothing and creates nothing, or inserts the job that it
-- answers with: one whose schedule is complete, with a next occurrence (the future time itself if it
-- is ONE_TIME), a name in snake_case that no other job has, a registered handler, and a timeout and
-- retry limits within their bounds.
pub post_job-IsCreation :
    (c : Checks) (cal : Calendar) (refused : List JobError) (checked now created_at : ℕ)
    (d : JobData) (db : Database)
    → IsCreation c checked db (post_job c cal refused checked now created_at d db)
unfolding post_job
post_job-IsCreation c cal refused checked now created_at d db =
    elim (List-cases (serializer_errors c false refused none checked db d)) [
      | inr (e, es, q) ↦ rw (q, post_job) (inl (refl, refl))
      | inl clean ↦
          rw (clean, post_job)
            (create_job-IsCreation c cal checked now created_at d db (
              let (fields, together) =
                serializer_errors-nil c false refused none checked db d clean in
              IsChecked-of_fields c checked db d fields together))
    ]
