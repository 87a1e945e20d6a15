-- ===== src/Http/Stack.antt =====
-- The order of the two middlewares (MIDDLEWARE of nexusops/settings.py): a request passes the one for
-- idempotency first, and then the rate limiter. Those of Django stand in front of both and are left
-- out.
pub mod Branches
use job_schedular.Base.{ℕ, Bool}
use job_schedular.Http.Data.{Request, HttpResponse}
use job_schedular.Http.RateLimit.{Buckets, rate_limited}
use job_schedular.Http.Idempotency.{Cache, idempotent}

-- Whether Redis answers the four calls, and the times of the request.
pub record Environment : Type 0 where
  pub get_works : Bool
  pub set_works : Bool
  pub read_works : Bool
  pub write_works : Bool
  pub asked_at : ℕ
  pub limited_at : ℕ
  pub stored_at : ℕ

unfoldable pub handle_request :
    {S : Type 0}
    → Environment
    → (Request → S → HttpResponse × S)
    → Request
    → Cache × (Buckets × S)
    → HttpResponse × (Cache × (Buckets × S))
handle_request e view =
    idempotent e.get_works e.set_works e.asked_at e.stored_at
      (rate_limited e.read_works e.write_works e.limited_at view)
