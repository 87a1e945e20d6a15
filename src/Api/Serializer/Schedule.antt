-- ===== src/Api/Serializer/Schedule.antt =====
-- What data has whose schedule is in order.
use job_schedular.Base.{
  ℕ, ◌<◌, ◌≡◌, refl, subst, inl, inr, true, false, Option, none, some, List, [], String, arith,
  str_eq, eq_iff, Bool-cases, Option-cases,
}
use job_schedular.Models.Status.{ScheduleType}
use job_schedular.Scheduler.Tick.{Calendar}
use job_schedular.Api.Serializer.{
  JobData, JobError, Checks, check_optional, validate_cron_expression, given_text, given_time,
  validate_cron, validate_one_time, validate,
}
use job_schedular.Api.Save.{default_null, in_utc}
use job_schedular.Api.Serializer.Fields.{unless-nil}

-- A CRON job has an expression and no time, a ONE_TIME job a future time at which it is due and no
-- expression; both have a next occurrence.
abbrev pub IsScheduled : Checks → ℕ → ScheduleType → Option String → Option ℕ → Option ℕ → Type 0
IsScheduled c now ScheduleType.cron (some s) none (some t) =
    (str_eq s "" ≡ false) × (c.is_cron s ≡ true)
IsScheduled c now ScheduleType.one_time none (some t) next = (now < t) × (next ≡ some t)
IsScheduled c now ScheduleType.one_time (some s) (some t) next =
    (s ≡ "") × (now < t) × (next ≡ some t)
IsScheduled _ _ _ _ _ _ = ⊥

abbrev pub validated : ℕ → ScheduleType → Option (Option String) → Option (Option ℕ) → List JobError
validated now ScheduleType.cron cron run = validate_cron (given_text cron) (given_time run)
validated now ScheduleType.one_time cron run =
    validate_one_time now (given_text cron) (given_time run)

abbrev pub next_of : Calendar → ℕ → ScheduleType → Option String → Option ℕ → Option (Option ℕ)
next_of cal now ScheduleType.one_time cron run = some run
next_of cal now ScheduleType.cron cron run = elim (cal.next cron now) [
  | none ↦ none
  | some t ↦ some (some (in_utc t))
]

module _ (c : Checks) (cal : Calendar) (checked now : ℕ) where
  -- A CRON job without a time.
  cron-IsScheduled :
      (s : String) (next : Option ℕ)
      → str_eq s "" ≡ false
      → validate_cron_expression c (some s) ≡ []
      → next_of cal now ScheduleType.cron (some s) none ≡ some next
      → IsScheduled c checked ScheduleType.cron (some s) none next
  unfolding validate_cron_expression
  cron-IsScheduled s next filled ok e = elim (Option-cases (cal.next (some s) now)) [
    | inl none_next ↦ absurd (ground (arith, none_next, e))
    | inr (t, some_next) ↦
        let same : some (in_utc t) ≡ next = ground (arith, some_next, e) in
        subst (λ n. IsScheduled c checked ScheduleType.cron (some s) none n) same
          (filled, unless-nil (c.is_cron s) _ ok)
  ]

  one_time-IsScheduled :
      (cron : Option (Option String)) (run : Option (Option ℕ))
      → validated checked ScheduleType.one_time cron run ≡ []
      → IsScheduled c checked ScheduleType.one_time
          (default_null none cron)
          (default_null none run)
          (default_null none run)
  one_time-IsScheduled none none h = cc
  one_time-IsScheduled none (some none) h = cc
  one_time-IsScheduled none (some (some t)) h = (ground arith, refl)
  one_time-IsScheduled (some none) none h = cc
  one_time-IsScheduled (some none) (some none) h = cc
  one_time-IsScheduled (some none) (some (some t)) h = (ground arith, refl)
  one_time-IsScheduled (some (some s)) none h = absurd (ground (arith, h))
  one_time-IsScheduled (some (some s)) (some none) h = absurd (ground (arith, h))
  one_time-IsScheduled (some (some s)) (some (some t)) h = elim (Bool-cases (str_eq s "")) [
    | inl empty ↦ ((eq_iff s "").0 empty, ground (arith, empty, h), refl)
    | inr filled ↦ absurd (ground (arith, filled, h))
  ]

  cron_data-IsScheduled :
      (cron : Option (Option String)) (run : Option (Option ℕ)) (next : Option ℕ)
      → validated checked ScheduleType.cron cron run ≡ []
      → check_optional (validate_cron_expression c) cron ≡ []
      → next_of cal now ScheduleType.cron (default_null none cron) (default_null none run)
        ≡ some next
      → IsScheduled c checked ScheduleType.cron
          (default_null none cron)
          (default_null none run)
          next
  cron_data-IsScheduled none run next h ok e = cc
  cron_data-IsScheduled (some none) run next h ok e = cc
  cron_data-IsScheduled (some (some s)) (some (some t)) next h ok e = absurd (ground (arith, h))
  cron_data-IsScheduled (some (some s)) none next h ok e =
      cron-IsScheduled s next (ground (arith, h)) ok e
  cron_data-IsScheduled (some (some s)) (some none) next h ok e =
      cron-IsScheduled s next (ground (arith, h)) ok e

  pub data-IsScheduled :
      (t : ScheduleType) (cron : Option (Option String)) (run : Option (Option ℕ)) (next : Option ℕ)
      → validated checked t cron run ≡ []
      → check_optional (validate_cron_expression c) cron ≡ []
      → next_of cal now t (default_null none cron) (default_null none run) ≡ some next
      → IsScheduled c checked t (default_null none cron) (default_null none run) next
  data-IsScheduled ScheduleType.cron cron run next h ok e =
      cron_data-IsScheduled cron run next h ok e
  data-IsScheduled ScheduleType.one_time cron run next h ok e =
      let same : default_null none run ≡ next = ground (arith, e) in
      subst
        (IsScheduled c checked ScheduleType.one_time (default_null none cron)
          (default_null none run))
        same (one_time-IsScheduled cron run h)

pub validated-of_validate :
    (checked : ℕ) (d : JobData) (t : ScheduleType)
    → d.schedule_type ≡ some t
    → validate checked d ≡ []
    → validated checked t d.cron_expression d.run_at ≡ []
unfolding validate
validated-of_validate checked d ScheduleType.cron e h = rw e at h
validated-of_validate checked d ScheduleType.one_time e h = rw e at h
