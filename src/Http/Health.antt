-- ===== src/Http/Health.antt =====
-- apps/core/health.py: the checks of the three services. Whether a service answers is an argument.
use job_schedular.Base.{ℕ, Bool, true, false, ◌&&◌, List, [], ◌∷◌, String, if◌then◌else◌}

-- What each of the three `try` blocks finds: `error` has the exception's text.
pub data Check : Type 0 where
  up : Check
  error : String → Check

abbrev pub is_up : Check → Bool
is_up up = true
is_up (error e) = false

pub record Readiness : Type 0 where
  pub status_code : ℕ
  pub status : String
  pub checks : List (String × Check)

unfoldable pub all_up : List (String × Check) → Bool
all_up [] = true
all_up ((name, c) ∷ rest) = is_up c && all_up rest

unfoldable pub health_ready : Check → Check → Check → Readiness
health_ready postgres redis rabbitmq =
    let checks = ("postgres", postgres) ∷ ("redis", redis) ∷ ("rabbitmq", rabbitmq) ∷ [] in
    record {
      status_code = if all_up checks then 200 else 503;
      status = if all_up checks then "ok" else "degraded";
      checks = checks;
    }
