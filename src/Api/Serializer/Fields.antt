-- ===== src/Api/Serializer/Fields.antt =====
-- What data has whose fields are all in order.
use job_schedular.Base.{
  ℕ, ◌≤◌, ◌≡◌, refl, inl, inr, Bool, true, false, ◌&&◌, Option, none, some, List, [], ◌∷◌, ◌++◌,
  String, arith, str_eq, Bool-cases, List-cases,
}
use job_schedular.Table.{exists}
use job_schedular.Models.{Database}
use job_schedular.Models.Status.{ScheduleType}
use job_schedular.Worker.Executor.{Handler, Registry, get_handler, get_handler_names}
use job_schedular.Api.Serializer.{
  JobData, JobError, Checks, is_snake_case, unless, check_required, check_optional, in_range,
  is_other, validate_name, validate_handler, validate_cron_expression, validate_timezone,
  validate_retry_policy, field_errors, validate, serializer_errors,
}
use job_schedular.Api.Save.{default_to}

abbrev pub Within : ℕ → ℕ → ℕ → Type 0
Within low high n = (low ≤ n) × (n ≤ high)

pub append-eq_nil : {A : Type 0} (xs ys : List A) → xs ++ ys ≡ [] → (xs ≡ []) × (ys ≡ [])
append-eq_nil [] ys h = (refl, h)
append-eq_nil (x ∷ xs) ys h = cc

pub unless-nil : (b : Bool) (e : JobError) → unless b e ≡ [] → b ≡ true
unless-nil true e h = refl
unless-nil false e h = cc

pub check_required-nil :
    {A : Type 0} (field : String) (check : A → List JobError) (o : Option A)
    → check_required false field check o ≡ []
    → (v : A) × (o ≡ some v) × (check v ≡ [])
check_required-nil field check none h = cc
check_required-nil field check (some v) h = (v, refl, h)

-- A number that is left out has its default.
pub check_range-nil :
    (low high d : ℕ) (e : JobError) (o : Option ℕ)
    → Within low high d
    → check_optional (λ n. unless (in_range low high n) e) o ≡ []
    → Within low high (default_to d o)
check_range-nil low high d e none w h = w
check_range-nil low high d e (some n) w h =
    let fits = unless-nil (in_range low high n) e h in (ground arith, ground arith)

-- A registered name has a handler.
pub get_handler-of_name :
    (name : String) (r : Registry)
    → exists (λ n. str_eq n name) (get_handler_names r) ≡ true
    → (f : Handler) × (get_handler name r ≡ some f)
unfolding get_handler get_handler_names exists
get_handler-of_name name [] h = cc
get_handler-of_name name ((k, g) ∷ rest) h = elim (Bool-cases (str_eq k name)) [
  | inl e ↦ (g, rw e refl)
  | inr e ↦ let found = get_handler-of_name name rest (rw e at h) in (found.0, rw e (found.1))
]

-- What data without errors has.
pub record IsChecked (c : Checks) (now : ℕ) (db : Database) (d : JobData) : Type 0 where
  pub named :
      (v : String) × (d.name ≡ some v)
      × (exists (λ j. str_eq j.name v) db.jobs ≡ false)
      × (is_snake_case v ≡ true)
  pub typed : (t : ScheduleType) × (d.schedule_type ≡ some t)
  pub handled :
      (v : String) × (d.handler ≡ some v) × ((f : Handler) × (get_handler v c.registry ≡ some f))
  pub handlers : check_required false "handler" (validate_handler c) d.handler ≡ []
  pub zones : check_optional (validate_timezone c) d.timezone ≡ []
  pub crons : check_optional (validate_cron_expression c) d.cron_expression ≡ []
  pub timeout : Within 10 7200 (default_to 300 d.timeout_seconds)
  pub policy : check_optional validate_retry_policy d.retry_policy ≡ []
  pub together : validate now d ≡ []

validate_name-nil :
    (db : Database) (v : String)
    → validate_name none db v ≡ []
    → (exists (λ j. str_eq j.name v) db.jobs ≡ false) × (is_snake_case v ≡ true)
unfolding validate_name
validate_name-nil db v h =
    elim (Bool-cases (exists (λ j. is_other none j && str_eq j.name v) db.jobs)) [
      | inl e ↦ absurd (ground (arith, e, h))
      | inr e ↦ (e, unless-nil (is_snake_case v) _ (rw e at h))
    ]

pub IsChecked-of_fields :
    (c : Checks) (now : ℕ) (db : Database) (d : JobData)
    → field_errors c false none db d ≡ []
    → validate now d ≡ []
    → IsChecked c now db d
unfolding field_errors validate_handler
IsChecked-of_fields c now db d h together =
    let (e1, r1) = append-eq_nil (check_required false "name" (validate_name none db) d.name) _ h in
    let (e2, r2) = append-eq_nil (check_required false "description" _ d.description) _ r1 in
    let (e3, r3) = append-eq_nil (check_required false "schedule_type" _ d.schedule_type) _ r2 in
    let (e4, r4) =
      append-eq_nil (check_optional (validate_cron_expression c) d.cron_expression) _ r3 in
    let (e5, r5) = append-eq_nil (check_optional (validate_timezone c) d.timezone) _ r4 in
    let (e6, r6) = append-eq_nil (check_optional _ d.timeout_seconds) _ r5 in
    let (e7, e8) = append-eq_nil (check_required false "handler" _ d.handler) _ r6 in
    let (name, name_eq, name_ok) = check_required-nil "name" (validate_name none db) d.name e1 in
    let (type, type_eq, _) =
      check_required-nil "schedule_type" (λ (v : ScheduleType). []) d.schedule_type e3 in
    let (handler, handler_eq, handler_ok) =
      check_required-nil "handler" (validate_handler c) d.handler e7 in
    record {
      named = (
        name,
        name_eq,
        (validate_name-nil db name name_ok).0,
        (validate_name-nil db name name_ok).1,
      );
      typed = (type, type_eq);
      handled =
          (handler, handler_eq, get_handler-of_name handler c.registry (unless-nil _ _ handler_ok));
      handlers = e7;
      zones = e5;
      crons = e4;
      timeout = check_range-nil 10 7200 300 _ d.timeout_seconds (omega arith, omega arith) e6;
      policy = e8;
      together = together;
    }

-- Data without errors has none in its fields, and none across them.
pub serializer_errors-nil :
    (c : Checks) (partial : Bool) (refused : List JobError) (instance_id : Option ℕ) (checked : ℕ)
    (db : Database) (d : JobData)
    → serializer_errors c partial refused instance_id checked db d ≡ []
    → (field_errors c partial instance_id db d ≡ []) × (validate checked d ≡ [])
unfolding serializer_errors
serializer_errors-nil c partial refused instance_id checked db d h =
    elim (List-cases (refused ++ field_errors c partial instance_id db d)) [
      | inl clean ↦ ((append-eq_nil refused _ clean).1, rw (clean, serializer_errors) at h)
      | inr (e, es, q) ↦ absurd (ground (arith, q, h))
    ]
