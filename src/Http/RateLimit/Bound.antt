-- ===== src/Http/RateLimit/Bound.antt =====
-- How many requests a bucket lets through.
use job_schedular.Base.{
  ℕ, ◌+◌, ◌*◌, ◌-◌, ◌≤◌, ◌≡◌, Option, none, some, List, [], ◌∷◌, arith, if◌then◌else◌,
}
use job_schedular.Http.RateLimit.{
  Category, Bucket, token, max_tokens, refill_rate, live, refilled, full_bucket, take_token,
  time_to_live,
}

-- A bucket as the middleware writes it, at a time not before its last write.
abbrev pub IsWritten : ℕ → Option Bucket → Type 0
IsWritten now none = Unit
IsWritten now (some b) = (b.last_refill ≤ now) × (b.expires_at ≡ b.last_refill + time_to_live)

-- What the bucket under a key holds after one request.
abbrev pub after_request : Option Bucket → Option Bucket → Option Bucket
after_request none old = old
after_request (some b) old = some b

-- The number of requests that pass, of those that come for one key at the given times.
unfoldable pub allowed_count : Category → List ℕ → Option Bucket → ℕ
allowed_count c [] e = 0
allowed_count c (t ∷ ts) e =
    let (written, allowed, remaining) = take_token c t (live t e) in
    (if allowed then 1 else 0) + allowed_count c ts (after_request written e)

-- The times do not go back, and lie between the two ends.
abbrev pub IsWithin : ℕ → List ℕ → ℕ → Type 0
IsWithin from [] to = from ≤ to
IsWithin from (t ∷ ts) to = (from ≤ t) × IsWithin t ts to

-- The millionths of tokens that a request would find.
available : Category → ℕ → Option Bucket → ℕ
available c now e = elim (live now e) [ none ↦ max_tokens c * token | some b ↦ refilled c now b ]

available-le :
    (c : Category) (now : ℕ) (e : Option Bucket) → available c now e ≤ max_tokens c * token
unfolding available live refilled
available-le c now none = omega arith
available-le c now (some b) = ground arith

-- An entry that has expired would have been full again.
available-grows :
    (c : Category) (s t : ℕ) (e : Option Bucket)
    → s ≤ t
    → IsWritten s e
    → available c t e ≤ available c s e + (t - s) * refill_rate c
unfolding available live refilled
available-grows c s t none h w = omega arith
available-grows Category.api s t (some b) h w = ground arith
available-grows Category.pages s t (some b) h w = ground arith
available-grows Category.health s t (some b) h w = ground arith

take_token-pays :
    (c : Category) (t : ℕ) (e : Option Bucket)
    → IsWritten t e
    → let (written, allowed, remaining) = take_token c t (live t e) in
      ((if allowed then 1 else 0) * token + available c t (after_request written e)
        ≤ available c t e)
      × IsWritten t (after_request written e)
unfolding available take_token full_bucket live refilled
take_token-pays Category.api t none w = ground arith
take_token-pays Category.pages t none w = ground arith
take_token-pays Category.health t none w = ground arith
take_token-pays Category.api t (some b) w = ground arith
take_token-pays Category.pages t (some b) w = ground arith
take_token-pays Category.health t (some b) w = ground arith

IsWritten-mono : (s t : ℕ) (e : Option Bucket) → s ≤ t → IsWritten s e → IsWritten t e
IsWritten-mono s t none h w = tt
IsWritten-mono s t (some b) h w = (omega arith, w.1)

interval :
    (c : Category) (s t u : ℕ)
    → s ≤ t
    → t ≤ u
    → (t - s) * refill_rate c + (u - t) * refill_rate c ≤ (u - s) * refill_rate c
interval Category.api s t u h k = omega arith
interval Category.pages s t u h k = omega arith
interval Category.health s t u h k = omega arith

IsWithin-le : (s u : ℕ) (ts : List ℕ) → IsWithin s ts u → s ≤ u
IsWithin-le s u [] h = h
IsWithin-le s u (t ∷ ts) h = omega (arith, IsWithin-le t u ts h.1)

allowed-available :
    (c : Category) (ts : List ℕ) (s u : ℕ) (e : Option Bucket)
    → IsWithin s ts u
    → IsWritten s e
    → allowed_count c ts e * token ≤ available c s e + (u - s) * refill_rate c
unfolding allowed_count
allowed-available c [] s u e h w = omega arith
allowed-available c (t ∷ ts) s u e h w =
    let later = IsWritten-mono s t e h.0 w in
    let paid = take_token-pays c t e later in
    omega (
      arith,
      paid.0,
      available-grows c s t e h.0 w,
      allowed-available c ts t u (after_request (take_token c t (live t e)).0 e) h.1 paid.1,
      interval c s t u h.0 (IsWithin-le t u ts h.1),
    )

-- The token bucket's bound: of the requests that come for one key, one after another, between two
-- times, at most the burst size and the refill of the time between pass, whether or not Redis drops
-- the entry in between. Redis works throughout, and the entry is one that the middleware wrote.
pub allowed_count-le :
    (c : Category) (ts : List ℕ) (from to : ℕ) (e : Option Bucket)
    → IsWithin from ts to
    → IsWritten from e
    → allowed_count c ts e * token ≤ max_tokens c * token + (to - from) * refill_rate c
allowed_count-le c ts from to e h w =
    omega (arith, allowed-available c ts from to e h w, available-le c from e)
