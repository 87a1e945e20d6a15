-- ===== src/Http/Data.antt =====
-- What nexusops/ratelimit.py and nexusops/middleware.py read of a request and write of a response.
-- The view behind them is an argument of theirs.
use job_schedular.Base.{ℕ, Option, List, [], ◌∷◌, String, str_eq, if◌then◌else◌}

pub record Request : Type 0 where
  pub method : String
  pub path : String
  pub idempotency_key : Option String
  pub forwarded_for : Option String
  pub remote_addr : Option String
  pub user_id : Option String

-- `number n` is the text `str(n)`.
pub data HeaderValue : Type 0 where
  text : String → HeaderValue
  number : ℕ → HeaderValue

-- `headers` are those other than Content-Type.
pub record HttpResponse : Type 0 where
  pub status_code : ℕ
  pub content : String
  pub content_type : Option String
  pub headers : List (String × HeaderValue)

-- `response[name] = value`.
unfoldable pub set_header :
    String → HeaderValue → List (String × HeaderValue) → List (String × HeaderValue)
set_header name value [] = (name, value) ∷ []
set_header name value ((k, v) ∷ rest) =
    if str_eq k name then (name, value) ∷ rest else (k, v) ∷ set_header name value rest

unfoldable pub with_header : String → HeaderValue → HttpResponse → HttpResponse
with_header name value r = record r { headers = set_header name value r.headers }
