-- ===== src/Api/Serializer.antt =====
-- apps/jobs/serializers.py: the validation of a job that is created or changed. `JobData` is what the
-- REST framework reads of a request's JSON: a field that is missing is `none`. What its field classes
-- refuse by themselves (a wrong type, a text that is empty or too long, an unknown choice) is an
-- argument, the list `refused` of such fields.
pub mod Fields
pub mod Schedule
use Prim.Native.Char.{Char, code}
use Prim.Native.String
use job_schedular.Base.{
  ℕ, ◌-◌, Bool, true, false, not, ◌||◌, ◌&&◌, Option, none, some, List, [], ◌∷◌, ◌++◌, String, ltb,
  leb, ◌==◌, str_eq, if◌then◌else◌,
}
use job_schedular.Table.{exists}
use job_schedular.Models.{Job, Database}
use job_schedular.Worker.Executor.{Registry, get_handler_names}
use job_schedular.Models.Status.{ScheduleType, BackoffType}

-- RetryPolicySerializer, as sent.
pub record RetryData : Type 0 where
  pub max_attempts : Option ℕ
  pub backoff : Option BackoffType
  pub base_delay_seconds : Option ℕ

-- The writable fields of JobSerializer. A nullable column may be missing, null or a value.
pub record JobData : Type 0 where
  pub name : Option String
  pub description : Option String
  pub schedule_type : Option ScheduleType
  pub cron_expression : Option (Option String)
  pub run_at : Option (Option ℕ)
  pub timezone : Option String
  pub priority : Option String
  pub timeout_seconds : Option ℕ
  pub handler : Option String
  pub retry_policy : Option RetryData

-- What the serializer reads of its own representation of a job: `retry_policy` is only written, and the
-- fields that are only read are passed over.
unfoldable pub sent_back : Job → JobData
sent_back job = record {
  name = some job.name;
  description = some job.description;
  schedule_type = some job.schedule_type;
  cron_expression = some job.cron_expression;
  run_at = some job.run_at;
  timezone = some job.timezone;
  priority = some job.priority;
  timeout_seconds = some job.timeout_seconds;
  handler = some job.handler;
  retry_policy = none;
}

pub data JobError : Type 0 where
  required rejected : String → JobError
  name_taken name_not_snake_case unknown_handler invalid_cron invalid_timezone : JobError
  out_of_range : String → JobError
  cron_expression_required run_at_not_allowed run_at_required cron_expression_not_allowed : JobError
  run_at_not_in_future : JobError

-- What the validation asks of others: croniter and zoneinfo, as whether they take a text, and the
-- handler registry.
pub record Checks : Type 0 where
  pub is_cron : String → Bool
  pub is_zone : String → Bool
  pub registry : Registry

unfoldable pub is_lower : ℕ → Bool
is_lower c = leb 97 c && leb c 122

unfoldable pub is_word : ℕ → Bool
is_word c = is_lower c || ((leb 48 c && leb c 57) || c == 95)

-- `[a-z0-9_]*$`: `$` also fits before a newline that ends the text.
unfoldable pub rest_is_word : String → Bool
rest_is_word String.[] = true
rest_is_word (String.◌∷◌ c s) =
    let rest = rest_is_word s in (is_word (code c) && rest) || (code c == 10 && str_eq s "")

-- `^[a-z][a-z0-9_]*$`.
unfoldable pub is_snake_case : String → Bool
is_snake_case String.[] = false
is_snake_case (String.◌∷◌ c s) = is_lower (code c) && rest_is_word s

-- One error, if a test fails.
abbrev pub unless : Bool → JobError → List JobError
unless true e = []
unless false e = e ∷ []

-- A field that is missing is an error in a full validation, and is passed over in a partial one.
abbrev pub check_required :
    {A : Type 0} → Bool → String → (A → List JobError) → Option A → List JobError
check_required partial field check none = unless partial (required field)
check_required partial field check (some v) = check v

abbrev pub check_optional : {A : Type 0} → (A → List JobError) → Option A → List JobError
check_optional check none = []
check_optional check (some v) = check v

abbrev pub in_range : ℕ → ℕ → ℕ → Bool
in_range low high n = leb low n && leb n high

-- `unique=True`: another job has the name. `instance` is the id of the job that is changed.
abbrev pub is_other : Option ℕ → Job → Bool
is_other none j = true
is_other (some id) j = not (j.id == id)

unfoldable pub validate_name : Option ℕ → Database → String → List JobError
validate_name instance_id db value =
    if exists (λ j. is_other instance_id j && str_eq j.name value) db.jobs
    then name_taken ∷ []
    else unless (is_snake_case value) name_not_snake_case

unfoldable pub validate_handler : Checks → String → List JobError
validate_handler c value =
    unless (exists (λ n. str_eq n value) (get_handler_names c.registry)) unknown_handler

unfoldable pub validate_cron_expression : Checks → Option String → List JobError
validate_cron_expression c none = []
validate_cron_expression c (some value) = unless (c.is_cron value) invalid_cron

unfoldable pub validate_timezone : Checks → String → List JobError
validate_timezone c value = unless (c.is_zone value) invalid_timezone

-- The limits that RetryPolicySerializer declares.
unfoldable pub validate_retry_policy : RetryData → List JobError
validate_retry_policy r =
    check_optional (λ n. unless (in_range 1 10 n) (out_of_range "max_attempts")) r.max_attempts
    ++ check_optional (λ n. unless (in_range 1 3600 n) (out_of_range "base_delay_seconds"))
        r.base_delay_seconds

-- The errors of the single fields.
unfoldable pub field_errors : Checks → Bool → Option ℕ → Database → JobData → List JobError
field_errors c partial instance_id db d =
    check_required partial "name" (validate_name instance_id db) d.name
    ++ (check_required partial "description" (λ v. []) d.description
        ++ (check_required partial "schedule_type" (λ v. []) d.schedule_type
            ++ (check_optional (validate_cron_expression c) d.cron_expression
                ++ (check_optional (validate_timezone c) d.timezone
                    ++ (check_optional
                          (λ n. unless (in_range 10 7200 n) (out_of_range "timeout_seconds"))
                          d.timeout_seconds
                        ++ (check_required partial "handler" (validate_handler c) d.handler
                            ++ check_optional validate_retry_policy d.retry_policy))))))

-- `attrs.get(...)`, with the value that Python takes for true: none of a missing field, of null and
-- of an empty text.
abbrev pub given_text : Option (Option String) → Option String
given_text none = none
given_text (some none) = none
given_text (some (some s)) = if str_eq s "" then none else some s

abbrev pub given_time : Option (Option ℕ) → Option ℕ
given_time none = none
given_time (some t) = t

abbrev pub validate_cron : Option String → Option ℕ → List JobError
validate_cron none run_at = cron_expression_required ∷ []
validate_cron (some s) (some t) = run_at_not_allowed ∷ []
validate_cron (some s) none = []

abbrev pub validate_one_time : ℕ → Option String → Option ℕ → List JobError
validate_one_time now cron none = run_at_required ∷ []
validate_one_time now (some s) (some t) = cron_expression_not_allowed ∷ []
validate_one_time now none (some t) = unless (ltb now t) run_at_not_in_future

-- `validate`: the fields together, of the data that was sent.
unfoldable pub validate : ℕ → JobData → List JobError
validate now d = elim d.schedule_type [
  | none ↦ []
  | some ScheduleType.cron ↦ validate_cron (given_text d.cron_expression) (given_time d.run_at)
  | some ScheduleType.one_time ↦
      validate_one_time now (given_text d.cron_expression) (given_time d.run_at)
]

-- `is_valid`: `validate` runs only if each field is in order.
unfoldable pub serializer_errors :
    Checks → Bool → List JobError → Option ℕ → ℕ → Database → JobData → List JobError
serializer_errors c partial refused instance_id now db d =
    elim (refused ++ field_errors c partial instance_id db d) [
      | [] ↦ validate now d
      | e ∷ es ↦ e ∷ es
    ]
