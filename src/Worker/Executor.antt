-- ===== src/Worker/Executor.antt =====
-- worker/executor.py, and the registry of apps/jobs/handlers.py. What a handler does is an argument:
-- its result as text, or the text of its exception.
use job_schedular.Base.{
  ℕ, ◌/◌, Bool, true, false, Option, none, some, List, [], ◌∷◌, String, str_eq, if◌then◌else◌, map,
}

-- What a call of a handler ends in, and how many microseconds it took.
pub data Outcome : Type 0 where
  returns : String → Outcome
  raises : String → Outcome

abbrev pub Handler : Type 0
Handler = ℕ → Outcome

-- HANDLER_REGISTRY, a dictionary: a name that is registered again keeps its place.
abbrev pub Registry : Type 0
Registry = List (String × Handler)

unfoldable pub register_handler : String → Handler → Registry → Registry
register_handler name f [] = (name, f) ∷ []
register_handler name f ((k, g) ∷ rest) =
    if str_eq k name then (name, f) ∷ rest else (k, g) ∷ register_handler name f rest

-- `get_handler`, with `none` for its KeyError.
unfoldable pub get_handler : String → Registry → Option Handler
get_handler name [] = none
get_handler name ((k, g) ∷ rest) = if str_eq k name then some g else get_handler name rest

unfoldable pub get_handler_names : Registry → List String
get_handler_names r = map (λ e. e.0) r

abbrev pub succeeds : Handler
succeeds attempt_id = returns "{'status': 'success'}"

-- The registry as the module's decorators leave it.
unfoldable pub builtin_handlers : Registry
unfolding register_handler
builtin_handlers = register_handler "cleanup_temp_files" succeeds (
    register_handler "sync_salesforce_data" succeeds (
      register_handler "generate_daily_report" succeeds
        (register_handler "billing_reconciliation" succeeds [])))

pub record ExecutionResult : Type 0 where
  pub success : Bool
  pub duration_ms : ℕ
  pub output : String
  pub error : Option String

unfoldable pub result_of_outcome : ℕ → Outcome → ExecutionResult
result_of_outcome duration_ms (returns output) = record {
  success = true;
  duration_ms = duration_ms;
  output = output;
  error = none;
}
result_of_outcome duration_ms (raises message) = record {
  success = false;
  duration_ms = duration_ms;
  output = "";
  error = some message;
}

-- The call of the handler that was found; `missing` is the text of the KeyError.
unfoldable pub run_handler : String → ℕ → Option Handler → Outcome
run_handler missing attempt_id none = raises missing
run_handler missing attempt_id (some f) = f attempt_id

-- `execute_handler`; `elapsed` is the time between the two readings of the monotonic clock, in
-- microseconds. `timeout_seconds` is an argument of the source that its body does not use.
unfoldable pub execute_handler : Registry → String → String → ℕ → ℕ → ℕ → ExecutionResult
execute_handler registry missing handler_name attempt_id timeout_seconds elapsed =
    result_of_outcome (elapsed / 1000)
      (run_handler missing attempt_id (get_handler handler_name registry))

-- `concurrent.futures`: what `future.result()` returns or raises.
pub data Future : Type 0 where
  returned : ExecutionResult → Future
  raised : String → Future

-- `submit_job`: the pool takes a callable, which is known by the result of its call, and answers the
-- future of it.
unfoldable pub submit_job :
    (ExecutionResult → Future) → Registry → String → String → ℕ → ℕ → ℕ → Future
submit_job pool registry missing handler_name attempt_id timeout_seconds elapsed =
    pool (execute_handler registry missing handler_name attempt_id timeout_seconds elapsed)
