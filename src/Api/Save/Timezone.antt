-- ===== src/Api/Save/Timezone.antt =====
-- What the time zone of a job does to its schedule.
use job_schedular.Base.{
  ℕ, ◌≡◌, refl, subst, inl, inr, Bool, true, false, Option, some, String, Option-cases,
}
use job_schedular.Models.{Job}
use job_schedular.Models.Status.{ScheduleType}
use job_schedular.Scheduler.Tick.{
  CronTime, aware, naive, Calendar, with_timezone, calculate_next_run,
}
use job_schedular.Api.Save.{serializer_next_run}

-- croniter's answer to an aware time is an aware time.
abbrev pub is_aware : Option CronTime → Bool
is_aware (some (naive t)) = false
is_aware _ = true

abbrev pub in_zone : String → Job → Job
in_zone zone job = record job { timezone = zone }

module _ (c : Calendar)
    (answers : (e : Option String) (after : ℕ) → is_aware (c.next e after) ≡ true) where
  same_time :
      (zone : String) (job : Job) (t : CronTime)
      → is_aware (some t) ≡ true
      → with_timezone c (in_zone zone job) t ≡ with_timezone c job t
  unfolding with_timezone
  same_time zone job (aware t) h = refl
  same_time zone job (naive t) h = cc

  tick_same :
      (zone : String) (job : Job) (after : ℕ)
      → calculate_next_run c (in_zone zone job) after ≡ calculate_next_run c job after
  unfolding calculate_next_run with_timezone
  tick_same zone job after = by_type job.schedule_type refl
    where
      by_type :
          (t : ScheduleType)
          → job.schedule_type ≡ t
          → calculate_next_run c (in_zone zone job) after ≡ calculate_next_run c job after
      by_type ScheduleType.one_time e = rw e refl
      by_type ScheduleType.cron e = rw e (elim (Option-cases (c.next job.cron_expression after)) [
        | inl q ↦ rw (q, calculate_next_run) refl
        | inr (t, q) ↦
            rw (q, calculate_next_run)
              (rw
                (same_time zone job t
                  (subst (λ o. is_aware o ≡ true) q (answers job.cron_expression after)))
                refl)
      ])

-- The time zone of a job has no effect on its schedule: since croniter answers an aware time when it is asked
-- with one, and the code asks with the time in UTC, a job that differs in its zone alone has the same next
-- occurrence, both when it is created or changed and when a tick moves it on.
pub zone_ignored :
    (c : Calendar)
    → ((e : Option String) (after : ℕ) → is_aware (c.next e after) ≡ true)
    → (zone : String) (job : Job) (now : ℕ)
    → (serializer_next_run c now (in_zone zone job) ≡ serializer_next_run c now job)
      × (calculate_next_run c (in_zone zone job) now ≡ calculate_next_run c job now)
unfolding serializer_next_run
zone_ignored c answers zone job now = (refl, tick_same c answers zone job now)
