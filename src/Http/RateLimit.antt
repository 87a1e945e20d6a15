-- ===== src/Http/RateLimit.antt =====
-- nexusops/ratelimit.py: a token bucket for each client and category, kept in Redis. Tokens are
-- counted in millionths and times in microseconds, so that a refill of `rate` tokens in a second is
-- `rate` millionths in a microsecond; the source computes the same in floating point.
pub mod Bound
use Prim.Native.Char.{Char, code}
use Prim.Native.String
use Prim.Native.String.{◌++◌}
use job_schedular.Base.{
  ◌∷◌, ℕ, suc, ◌+◌, ◌*◌, ◌-◌, ◌/◌, min, max, Bool, true, false, not, ◌||◌, ◌&&◌, Option, none, some,
  List, [], String, ltb, leb, ◌==◌, str_eq, starts_with, if◌then◌else◌,
}
use job_schedular.Http.Data.{Request, HeaderValue, text, number, HttpResponse, with_header}
use job_schedular.Models.{second}

pub data Category : Type 0 where
  api pages health : Category

-- One token, in millionths.
abbrev pub token : ℕ
token = 1000000

-- RATE_LIMITS.
abbrev pub max_tokens : Category → ℕ
max_tokens Category.api = 100
max_tokens Category.pages = 60
max_tokens Category.health = 300

abbrev pub refill_rate : Category → ℕ
refill_rate Category.api = 1
refill_rate Category.pages = 1
refill_rate Category.health = 5

abbrev pub category_name : Category → String
category_name Category.api = "api"
category_name Category.pages = "pages"
category_name Category.health = "health"

-- ENDPOINT_CATEGORIES, in the order of the dictionary.
unfoldable pub get_category : String → Category
get_category path =
    if starts_with path "/api/v1/"
    then Category.api
    else if starts_with path "/api/"
    then Category.api
    else if starts_with path "/health"
    then Category.health
    else Category.pages

-- `str.isspace`, by the code point.
unfoldable pub is_space : ℕ → Bool
is_space c =
    (leb 9 c && leb c 13)
    || ((leb 28 c && leb c 32)
        || ((c == 133)
            || ((c == 160)
                || ((c == 5760)
                    || ((leb 8192 c && leb c 8202)
                        || ((c == 8232)
                            || ((c == 8233) || ((c == 8239) || ((c == 8287) || (c == 12288))))))))))

-- `xff.split(",")[0]`.
unfoldable pub first_field : String → String
first_field String.[] = String.[]
first_field (String.◌∷◌ c s) =
    let rest = first_field s in if code c == b',' then String.[] else String.◌∷◌ c rest

unfoldable pub strip_left : String → String
strip_left String.[] = String.[]
strip_left (String.◌∷◌ c s) =
    let rest = strip_left s in if is_space (code c) then rest else String.◌∷◌ c s

-- Nothing but spaces becomes nothing, so the spaces at the end go.
abbrev pub cons_unless_space : Char → String → String
cons_unless_space c String.[] = if is_space (code c) then String.[] else String.◌∷◌ c String.[]
cons_unless_space c (String.◌∷◌ d s) = String.◌∷◌ c (String.◌∷◌ d s)

unfoldable pub strip_right : String → String
strip_right String.[] = String.[]
strip_right (String.◌∷◌ c s) = cons_unless_space c (strip_right s)

unfoldable pub strip : String → String
strip s = strip_right (strip_left s)

abbrev pub or_unknown : Option String → String
or_unknown none = "unknown"
or_unknown (some a) = a

-- An empty header is falsy.
unfoldable pub get_client_id : Request → String
get_client_id r = elim r.forwarded_for [
  | none ↦ or_unknown r.remote_addr
  | some xff ↦ if str_eq xff "" then or_unknown r.remote_addr else strip (first_field xff)
]

pub record Bucket : Type 0 where
  pub tokens : ℕ
  pub last_refill : ℕ
  pub expires_at : ℕ

-- What Redis holds under a key; an entry that has expired is not there.
abbrev pub Buckets : Type 0
Buckets = String → Option Bucket

unfoldable pub live : ℕ → Option Bucket → Option Bucket
live now none = none
live now (some b) = if ltb now b.expires_at then some b else none

abbrev pub time_to_live : ℕ
time_to_live = 300 * second

-- `min(max_tokens, current_tokens + elapsed * refill_rate)`. If the clock has gone back so far that
-- this is negative, it is 0 here; in both cases the request is refused.
unfoldable pub refilled : Category → ℕ → Bucket → ℕ
refilled c now b =
    min (max_tokens c * token) (b.tokens + now * refill_rate c - b.last_refill * refill_rate c)

unfoldable pub full_bucket : Category → ℕ → Bucket
full_bucket c now = record {
  tokens = (max_tokens c - 1) * token;
  last_refill = now;
  expires_at = now + time_to_live;
}

-- One look at a bucket: the bucket to write, if any, whether the request may pass, and the whole
-- tokens that remain.
unfoldable pub take_token : Category → ℕ → Option Bucket → Option Bucket × Bool × ℕ
take_token c now none = (some (full_bucket c now), true, max_tokens c - 1)
take_token c now (some b) =
    let tokens = refilled c now b in
    let left = tokens - token in
    if ltb tokens token then (none, false, 0) else (
      some (record { tokens = left; last_refill = now; expires_at = now + time_to_live }),
      true,
      left / token,
    )

unfoldable pub bucket_key : Category → String → String
bucket_key c identifier = "ratelimit:" ++ (category_name c ++ (":" ++ identifier))

abbrev pub write_bucket : String → Option Bucket → Buckets → Buckets
write_bucket key none store = store
write_bucket key (some b) store = λ k. if str_eq k key then some b else store k

-- `_check_rate_limit`. If Redis fails, in the read or in the write, the request passes.
unfoldable pub check_rate_limit : Bool → Bool → Category → String → ℕ → Buckets → Buckets × Bool × ℕ
check_rate_limit read_works write_works c identifier now store =
    let key = bucket_key c identifier in
    let (written, allowed, remaining) = take_token c now (live now (store key)) in
    if not read_works
    then (store, true, max_tokens c)
    else if not allowed
    then (store, false, 0)
    else if not write_works
    then (store, true, max_tokens c)
    else (write_bucket key written store, true, remaining)

-- `max(1, int(1 / refill_rate))`.
unfoldable pub retry_after : Category → ℕ
retry_after c = max 1 (1 / refill_rate c)

-- The 429 answer; of its JSON body, the `error` field.
unfoldable pub too_many : Category → HttpResponse
too_many c = record {
  status_code = 429;
  content = "rate_limit_exceeded";
  content_type = some "application/json";
  headers =
      ("Retry-After", number (retry_after c))
      ∷ ("X-RateLimit-Limit", number (max_tokens c))
      ∷ ("X-RateLimit-Remaining", number 0)
      ∷ ("X-RateLimit-Category", text (category_name c))
      ∷ [];
}

unfoldable pub with_limits : Category → ℕ → HttpResponse → HttpResponse
with_limits c remaining r = with_header "X-RateLimit-Category" (text (category_name c)) (
    with_header "X-RateLimit-Remaining" (number remaining)
      (with_header "X-RateLimit-Limit" (number (max_tokens c)) r))

-- RateLimitMiddleware.__call__, in front of a view over a state of its own.
unfoldable pub rate_limited :
    {S : Type 0}
    → Bool
    → Bool
    → ℕ
    → (Request → S → HttpResponse × S)
    → Request
    → Buckets × S
    → HttpResponse × (Buckets × S)
rate_limited read_works write_works now view r (store, s) =
    let c = get_category r.path in
    let (store', allowed, remaining) =
      check_rate_limit read_works write_works c (get_client_id r) now store in
    let (response, s') = view r s in
    if not allowed
    then (too_many c, (store', s))
    else (with_limits c remaining response, (store', s'))
