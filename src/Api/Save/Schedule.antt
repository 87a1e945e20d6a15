-- ===== src/Api/Save/Schedule.antt =====
-- When the columns of a schedule count as changed.
use job_schedular.Base.{
  ◌≡◌, refl, ◌∙◌, sym, ap, Bool, true, false, not, ◌||◌, Option, none, some, String, ◌==◌, ==-refl,
  ==_iff, str_eq, eq_iff,
}
use job_schedular.Models.{Job}
use job_schedular.Models.Status.{ScheduleType}
use job_schedular.Api.Serializer.{JobData}
use job_schedular.Api.Save.{
  default_to, default_null, changes, same_schedule_type, same_option, schedule_changed,
}

pub str_eq_refl : (s : String) → str_eq s s ≡ true
str_eq_refl s = (eq_iff s s).1 refl

pub same_schedule_type_refl : (t : ScheduleType) → same_schedule_type t t ≡ true
same_schedule_type_refl ScheduleType.cron = refl
same_schedule_type_refl ScheduleType.one_time = refl

same_schedule_type→≡ : (t u : ScheduleType) → same_schedule_type t u ≡ true → u ≡ t
same_schedule_type→≡ ScheduleType.cron ScheduleType.cron h = refl
same_schedule_type→≡ ScheduleType.one_time ScheduleType.one_time h = refl
same_schedule_type→≡ ScheduleType.cron ScheduleType.one_time h = cc h
same_schedule_type→≡ ScheduleType.one_time ScheduleType.cron h = cc h

module _ {A : Type 0} (eq : A → A → Bool) where
  pub same_option_refl : ((a : A) → eq a a ≡ true) → (o : Option A) → same_option eq o o ≡ true
  same_option_refl h none = refl
  same_option_refl h (some a) = h a

  same_option→≡ :
      ((a b : A) → eq a b ≡ true → b ≡ a) → (o p : Option A) → same_option eq o p ≡ true → p ≡ o
  same_option→≡ h none none e = refl
  same_option→≡ h (some a) (some b) e = ap some (h a b e)
  same_option→≡ h none (some b) e = cc e
  same_option→≡ h (some a) none e = cc e

  unchanged→≡ :
      ((a b : A) → eq a b ≡ true → b ≡ a)
      → (old : A) (o : Option A) → changes eq old o ≡ false
      → default_to old o ≡ old
  unchanged→≡ h old none e = refl
  unchanged→≡ h old (some v) e = h old v (not_false (eq old v) e)
    where
      not_false : (b : Bool) → not b ≡ false → b ≡ true
      not_false true e = refl
      not_false false e = sym e

  ≡→unchanged :
      ((a : A) → eq a a ≡ true)
      → (old : A) (o : Option A) → default_to old o ≡ old
      → changes eq old o ≡ false
  ≡→unchanged h old none e = refl
  ≡→unchanged h old (some v) e = rw (e, h old) refl

null≡to : {A : Type 0} (d : Option A) (o : Option (Option A)) → default_null d o ≡ default_to d o
null≡to d none = refl
null≡to d (some v) = refl

-- The four columns that make up the schedule are as they were.
pub record IsSameSchedule (old new : Job) : Type 0 where
  pub schedule_type : new.schedule_type ≡ old.schedule_type
  pub cron_expression : new.cron_expression ≡ old.cron_expression
  pub run_at : new.run_at ≡ old.run_at
  pub timezone : new.timezone ≡ old.timezone

-- The four columns are the ones sent, where they are.
pub record IsScheduled (d : JobData) (old new : Job) : Type 0 where
  pub schedule_type : new.schedule_type ≡ default_to old.schedule_type d.schedule_type
  pub cron_expression : new.cron_expression ≡ default_null old.cron_expression d.cron_expression
  pub run_at : new.run_at ≡ default_null old.run_at d.run_at
  pub timezone : new.timezone ≡ default_to old.timezone d.timezone

or_false : (a b : Bool) → (a || b) ≡ false → (a ≡ false) × (b ≡ false)
or_false false false h = (refl, refl)
or_false false true h = (refl, h)
or_false true b h = cc h

module _ (d : JobData) (old new : Job) (sent : IsScheduled d old new) where
  pub unchanged-IsSameSchedule : schedule_changed old d ≡ false → IsSameSchedule old new
  unfolding schedule_changed
  unchanged-IsSameSchedule h =
      let first = or_false _ _ h in
      let second = or_false _ _ first.1 in
      let third = or_false _ _ second.1 in
      record {
        schedule_type =
            sent.schedule_type
            ∙ unchanged→≡ same_schedule_type same_schedule_type→≡ old.schedule_type d.schedule_type
                first.0;
        cron_expression =
            sent.cron_expression
            ∙ (null≡to old.cron_expression d.cron_expression
                ∙ unchanged→≡ (same_option str_eq)
                    (same_option→≡ str_eq (λ a b e. sym ((eq_iff a b).0 e))) old.cron_expression
                    d.cron_expression second.0);
        run_at =
            sent.run_at
            ∙ (null≡to old.run_at d.run_at
                ∙ unchanged→≡ (same_option ◌==◌)
                    (same_option→≡ ◌==◌ (λ a b e. sym ((==_iff a b).0 e))) old.run_at d.run_at
                    third.0);
        timezone =
            sent.timezone
            ∙ unchanged→≡ str_eq (λ a b e. sym ((eq_iff a b).0 e)) old.timezone d.timezone third.1;
      }

  pub IsSameSchedule→unchanged : IsSameSchedule old new → schedule_changed old d ≡ false
  unfolding schedule_changed
  IsSameSchedule→unchanged same =
      rw
        (
          ≡→unchanged same_schedule_type same_schedule_type_refl old.schedule_type d.schedule_type
              (sym sent.schedule_type ∙ same.schedule_type),
          ≡→unchanged (same_option str_eq) (same_option_refl str_eq str_eq_refl) old.cron_expression
              d.cron_expression
              (sym (null≡to old.cron_expression d.cron_expression)
                ∙ (sym sent.cron_expression ∙ same.cron_expression)),
          ≡→unchanged (same_option ◌==◌) (same_option_refl ◌==◌ ==-refl) old.run_at d.run_at
              (sym (null≡to old.run_at d.run_at) ∙ (sym sent.run_at ∙ same.run_at)),
          ≡→unchanged str_eq str_eq_refl old.timezone d.timezone
              (sym sent.timezone ∙ same.timezone),
        )
        refl
