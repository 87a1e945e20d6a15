-- ===== src/Http/Tests.antt =====
-- The middlewares' theorems on a bucket and on a view that counts.
use job_schedular.Base.{ℕ, suc, ◌+◌, ◌*◌, ◌-◌, ◌≤◌, ◌≡◌, refl, true, none, some, [], ◌∷◌, arith}
use job_schedular.Http.Data.{Request, HttpResponse}
use job_schedular.Http.Stack.{Environment, handle_request}
use job_schedular.Http.Stack.Branches.{IsAnswered, handle_request-IsAnswered}
use job_schedular.Http.RateLimit.{Buckets, Category, max_tokens, token, refill_rate}
use job_schedular.Http.RateLimit.Bound.{allowed_count, allowed_count-le}
use job_schedular.Http.Idempotency.{
  Cache, request_key, build_cache_key, is_mutating, get_cached_response, is_success, idempotent,
}
use job_schedular.Http.Idempotency.Replay.{replay_of, idempotent_twice}

allowed_count-le_example :
    allowed_count Category.api (0 ∷ 1000000 ∷ 1000001 ∷ []) none * token
    ≤ max_tokens Category.api * token + (2000000 - 0) * refill_rate Category.api
allowed_count-le_example =
    allowed_count-le Category.api (0 ∷ 1000000 ∷ 1000001 ∷ []) 0 2000000 none
      (omega arith, (omega arith, (omega arith, omega arith))) tt

-- A view that creates one more row at each call.
abbrev create_view : Request → ℕ → HttpResponse × ℕ
create_view r n =
    (record { status_code = 201; content = "created"; content_type = none; headers = [] }, suc n)

abbrev post : Request
post = record {
  method = "POST";
  path = "/api/v1/jobs/";
  idempotency_key = some "k1";
  forwarded_for = none;
  remote_addr = some "10.0.0.1";
  user_id = none;
}

abbrev no_answers : Cache
no_answers key = none

idempotent_twice_example :
    let (first, after) = idempotent true true 10 20 create_view post (no_answers, 0) in
    (first ≡ (create_view post 0).0)
    × (after.1 ≡ (create_view post 0).1)
    × (idempotent true true 30 40 create_view post after ≡ (replay_of first, after))
unfolding request_key build_cache_key is_mutating get_cached_response is_success
idempotent_twice_example =
    idempotent_twice create_view post post "idempotency:k1:anonymous:10.0.0.1" 10 20 30 40
      no_answers 0 refl refl refl refl (omega arith)

abbrev all_works : Environment
all_works = record {
  get_works = true;
  set_works = true;
  read_works = true;
  write_works = true;
  asked_at = 10;
  limited_at = 11;
  stored_at = 20;
}

abbrev no_buckets : Buckets
no_buckets key = none

handle_request-IsAnswered_example :
    IsAnswered all_works create_view post
      (no_answers, (no_buckets, 0))
      (handle_request all_works create_view post (no_answers, (no_buckets, 0)))
handle_request-IsAnswered_example =
    handle_request-IsAnswered all_works create_view post no_answers no_buckets 0
