-- ===== src/Api/Save/SentBack.antt =====
-- The checks accept a job that they have accepted once, as it is shown.
use job_schedular.Base.{
  ℕ, ◌≡◌, refl, ap, sym, ◌∙◌, subst, true, false, Option, none, some, List, [], ◌∷◌, String, arith,
  ◌&&◌, ==-refl, str_eq,
}
use job_schedular.Table.{exists, insert}
use job_schedular.Models.{Job, Database}
use job_schedular.Models.Status.{ScheduleType}
use job_schedular.Api.Serializer.{
  RetryData, JobData, out_of_range, Checks, sent_back, unless, in_range, check_required,
  check_optional, is_snake_case, validate_name, validate_cron_expression, validate_timezone,
  validate_handler, given_text, given_time, is_other, field_errors, validate, serializer_errors,
}
use job_schedular.Api.Serializer.Fields.{Within, IsChecked}
use job_schedular.Api.Save.{default_to, default_null}
use job_schedular.Api.Save.Created.{policied, policied_fields}

-- Its name is taken by itself alone.
other_names :
    (id : ℕ) (v : String) (job : Job) (jobs : List Job)
    → job.id ≡ id
    → exists (λ j. str_eq j.name v) jobs ≡ false
    → exists (λ j. is_other (some id) j && str_eq j.name v) (insert job jobs) ≡ false
unfolding exists
other_names id v job [] e h = ground (arith, e, ==-refl id)
other_names id v job (j ∷ jobs) e h = ground (arith, other_names id v job jobs e, h)

given_text-default :
    (o : Option (Option String)) → given_text (some (default_null none o)) ≡ given_text o
given_text-default none = refl
given_text-default (some o) = refl

given_time-default :
    (o : Option (Option ℕ)) → given_time (some (default_null none o)) ≡ given_time o
given_time-default none = refl
given_time-default (some o) = refl

module _ (c : Checks) (checked : ℕ) (db : Database) (d : JobData) (ok : IsChecked c checked db d)
    (rp : Option RetryData) (id created_at : ℕ) (next : Option ℕ) where
  abbrev job : Job
  job = record (policied rp id created_at d) { next_run_at = next }

  abbrev columns :
      let j = policied rp id created_at d in
      (j.name ≡ default_to "" d.name)
      × (j.schedule_type ≡ default_to ScheduleType.cron d.schedule_type)
      × (j.cron_expression ≡ default_null none d.cron_expression)
      × (j.run_at ≡ default_null none d.run_at)
      × (j.handler ≡ default_to "" d.handler)
      × (j.timeout_seconds ≡ default_to 300 d.timeout_seconds)
      × (j.timezone ≡ default_to "UTC" d.timezone)
      × (j.id ≡ id)
  columns = policied_fields rp id created_at d

  name_accepted :
      (after : Database)
      → after.jobs ≡ insert job db.jobs
      → validate_name (some id) after job.name ≡ []
  unfolding validate_name
  name_accepted after e =
      let (v, named, fresh, snake) = ok.named in
      let same : job.name ≡ v = columns.0 ∙ ap (default_to "") named in
      rw e (
        rw
          (
            other_names id job.name job db.jobs columns.7
                (subst (λ n. exists (λ j. str_eq j.name n) db.jobs ≡ false) (sym same) fresh),
            subst (λ n. is_snake_case n ≡ true) (sym same) snake,
          )
          refl)

  cron_accepted : validate_cron_expression c job.cron_expression ≡ []
  cron_accepted = rw columns.2 (given d.cron_expression ok.crons)
    where
      given :
          (o : Option (Option String))
          → check_optional (validate_cron_expression c) o ≡ []
          → validate_cron_expression c (default_null none o) ≡ []
      given none h = unfold validate_cron_expression in refl
      given (some o) h = h

  zone_accepted : c.is_zone "UTC" ≡ true → validate_timezone c job.timezone ≡ []
  zone_accepted utc = rw columns.6 (given d.timezone ok.zones)
    where
      given :
          (o : Option String)
          → check_optional (validate_timezone c) o ≡ []
          → validate_timezone c (default_to "UTC" o) ≡ []
      given none h = unfold validate_timezone in rw utc refl
      given (some o) h = h

  handler_accepted : validate_handler c job.handler ≡ []
  handler_accepted = rw columns.4 (given d.handler ok.handlers)
    where
      given :
          (o : Option String)
          → check_required false "handler" (validate_handler c) o ≡ []
          → validate_handler c (default_to "" o) ≡ []
      given none h = cc
      given (some o) h = h

  same_checks : (rechecked : ℕ) → validate rechecked (sent_back job) ≡ validate rechecked d
  unfolding validate sent_back
  same_checks rechecked = by_type ok.typed.0 ok.typed.1
    where
      by_type :
          (t : ScheduleType)
          → d.schedule_type ≡ some t
          → validate rechecked (sent_back job) ≡ validate rechecked d
      by_type ScheduleType.cron e =
          rw (columns.2, columns.3, columns.1, e)
            (rw (given_text-default d.cron_expression, given_time-default d.run_at) refl)
      by_type ScheduleType.one_time e =
          rw (columns.2, columns.3, columns.1, e)
            (rw (given_text-default d.cron_expression, given_time-default d.run_at) refl)

  fields_accepted :
      (after : Database)
      → after.jobs ≡ insert job db.jobs
      → c.is_zone "UTC" ≡ true
      → field_errors c true (some id) after (sent_back job) ≡ []
  unfolding field_errors sent_back
  fields_accepted after e utc =
      rw
        (
          field_errors,
          name_accepted after e,
          cron_accepted,
          zone_accepted utc,
          handler_accepted,
          fits,
        )
        refl
    where
      fits : unless (in_range 10 7200 job.timeout_seconds) (out_of_range "timeout_seconds") ≡ []
      fits =
          let within = subst (Within 10 7200) (sym (columns.5)) ok.timeout in
          ground (arith, within.0, within.1)

  pub accepted :
      (after : Database) (rechecked : ℕ)
      → after.jobs ≡ insert job db.jobs
      → c.is_zone "UTC" ≡ true
      → validate rechecked d ≡ []
      → serializer_errors c true [] (some id) rechecked after (sent_back job) ≡ []
  unfolding serializer_errors
  accepted after rechecked e utc still =
      rw (fields_accepted after e utc, serializer_errors) (same_checks rechecked ∙ still)
