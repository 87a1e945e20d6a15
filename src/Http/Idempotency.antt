-- ===== src/Http/Idempotency.antt =====
-- nexusops/middleware.py: the answer to a request with an Idempotency-Key is kept in Redis for a day,
-- and given again.
pub mod Replay
use Prim.Native.String.{◌++◌}
use job_schedular.Base.{
  ℕ, ◌+◌, ◌*◌, Bool, true, false, not, ◌||◌, ◌&&◌, Option, none, some, List, [], ◌∷◌, String, ltb,
  leb, str_eq, if◌then◌else◌,
}
use job_schedular.Http.Data.{Request, HeaderValue, text, HttpResponse, set_header}
use job_schedular.Models.{second}

abbrev pub ttl_seconds : ℕ
ttl_seconds = 86400

-- IDEMPOTENT_METHODS.
unfoldable pub is_mutating : String → Bool
is_mutating m = str_eq m "POST" || (str_eq m "PUT" || (str_eq m "PATCH" || str_eq m "DELETE"))

-- `getattr(request, "user_id", None) or "anonymous"`.
abbrev pub user_or_anonymous : Option String → String
user_or_anonymous none = "anonymous"
user_or_anonymous (some u) = if str_eq u "" then "anonymous" else u

abbrev pub addr_or_unknown : Option String → String
addr_or_unknown none = "unknown"
addr_or_unknown (some a) = a

unfoldable pub build_cache_key : String → Request → String
build_cache_key key r =
    "idempotency:"
    ++ (key ++ (":" ++ (user_or_anonymous r.user_id ++ (":" ++ addr_or_unknown r.remote_addr))))

-- The JSON blob under a key, and when Redis drops it.
pub record Stored : Type 0 where
  pub body : String
  pub status : ℕ
  pub content_type : String
  pub headers : List (String × HeaderValue)
  pub expires_at : ℕ

abbrev pub Cache : Type 0
Cache = String → Option Stored

unfoldable pub type_or_json : Option String → String
type_or_json none = "application/json"
type_or_json (some t) = t

-- `_store_response`.
unfoldable pub stored_response : ℕ → HttpResponse → Stored
stored_response now r = record {
  body = r.content;
  status = r.status_code;
  content_type = type_or_json r.content_type;
  headers = r.headers;
  expires_at = now + ttl_seconds * second;
}

unfoldable pub assign_headers :
    List (String × HeaderValue) → List (String × HeaderValue) → List (String × HeaderValue)
assign_headers [] hs = hs
assign_headers ((k, v) ∷ rest) hs = assign_headers rest (set_header k v hs)

-- The answer that `_get_cached_response` builds.
unfoldable pub replayed : Stored → HttpResponse
replayed d = record {
  status_code = d.status;
  content = d.body;
  content_type = some d.content_type;
  headers = set_header "X-Idempotent-Replay" (text "true") (assign_headers d.headers []);
}

-- `_get_cached_response`: a failure of Redis is a miss.
unfoldable pub get_cached_response : Bool → ℕ → Option Stored → Option HttpResponse
get_cached_response works now none = none
get_cached_response works now (some d) =
    if works && ltb now d.expires_at then some (replayed d) else none

unfoldable pub is_success : HttpResponse → Bool
is_success r = leb 200 r.status_code && ltb r.status_code 300

unfoldable pub put : Bool → String → Stored → Cache → Cache
put works key d cache = if works then (λ k. if str_eq k key then some d else cache k) else cache

-- The key of a request that the middleware handles: it has a header that is not empty, and a
-- mutating method.
unfoldable pub request_key : Request → Option String
request_key r = elim r.idempotency_key [
  | none ↦ none
  | some k ↦ if str_eq k "" || not (is_mutating r.method) then none else some (build_cache_key k r)
]

-- A miss: the view runs, and a success is stored.
unfoldable pub run_and_store :
    {S : Type 0} → Bool → ℕ → String → HttpResponse × S → Cache → HttpResponse × (Cache × S)
run_and_store set_works now key (response, s) cache = (
  response,
  (
    (if is_success response then put set_works key (stored_response now response) cache else cache),
    s,
  ),
)

-- IdempotencyMiddleware.__call__, in front of a view over a state of its own. `stored_at` is the time
-- at which Redis stores the answer.
unfoldable pub idempotent :
    {S : Type 0}
    → Bool
    → Bool
    → ℕ
    → ℕ
    → (Request → S → HttpResponse × S)
    → Request
    → Cache × S
    → HttpResponse × (Cache × S)
idempotent get_works set_works now stored_at view r (cache, s) =
    let (response, s') = view r s in
    elim (request_key r) [
      | none ↦ (response, (cache, s'))
      | some key ↦ elim (get_cached_response get_works now (cache key)) [
        | some cached ↦ (cached, (cache, s))
        | none ↦ run_and_store set_works stored_at key (view r s) cache
      ]
    ]
