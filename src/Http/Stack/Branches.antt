-- ===== src/Http/Stack/Branches.antt =====
-- What can become of a request.
use job_schedular.Base.{
  ℕ, ◌≡◌, refl, ap, inl, inr, ◌∙◌, sym, Bool, true, false, some, none, ◌⊎◌, String, arith,
  Bool-cases, Option-cases,
}
use job_schedular.Http.Data.{Request, HttpResponse}
use job_schedular.Http.RateLimit.{
  Category, Buckets, get_category, get_client_id, check_rate_limit, too_many, with_limits,
  rate_limited,
}
use job_schedular.Http.Idempotency.{
  Cache, request_key, get_cached_response, is_success, run_and_store, idempotent,
}
use job_schedular.Http.Stack.{Environment, handle_request}

-- No answer is stored under the key of the request.
abbrev pub IsNotStored : Environment → Request → Cache → Type 0
IsNotStored e r cache =
    (request_key r ≡ none)
    ⊎ ((key : String) × (request_key r ≡ some key)
        × (get_cached_response e.get_works e.asked_at (cache key) ≡ none))

-- The three ways in which a request ends: replayed, refused, or handled by the view.
pub data IsAnswered {S : Type 0} (e : Environment) (view : Request → S → HttpResponse × S)
    (r : Request) (before : Cache × (Buckets × S)) (result : HttpResponse × (Cache × (Buckets × S)))
    : Type 0 where
  replayed :
      (key : String) (d : HttpResponse)
      → request_key r ≡ some key
      → get_cached_response e.get_works e.asked_at (before.0 key) ≡ some d
      → result ≡ (d, before)
      → IsAnswered e view r before result
  refused :
      IsNotStored e r before.0
      → (check_rate_limit e.read_works e.write_works
          (get_category r.path)
          (get_client_id r)
          e.limited_at
          before.1.0).1
        ≡ false
      → result ≡ (too_many (get_category r.path), before)
      → IsAnswered e view r before result
  viewed :
      (remaining : ℕ)
      → IsNotStored e r before.0
      → (check_rate_limit e.read_works e.write_works
          (get_category r.path)
          (get_client_id r)
          e.limited_at
          before.1.0)
        ≡ (result.1.1.0, true, remaining)
      → result.0 ≡ with_limits (get_category r.path) remaining (view r before.1.1).0
      → result.1.1.1 ≡ (view r before.1.1).1
      → IsAnswered e view r before result

module _ {S : Type 0} (e : Environment) (view : Request → S → HttpResponse × S) (r : Request)
    (cache : Cache) (store : Buckets) (s : S) where
  abbrev checked : Buckets × Bool × ℕ
  checked =
      check_rate_limit e.read_works e.write_works (get_category r.path) (get_client_id r)
        e.limited_at store

  -- A refusal writes no bucket.
  refused_store : checked.1 ≡ false → checked.0 ≡ store
  unfolding check_rate_limit
  refused_store h = ground (arith, h)

  abbrev limited : HttpResponse × (Buckets × S)
  limited = rate_limited e.read_works e.write_works e.limited_at view r (store, s)

  abbrev category : Category
  category = get_category r.path

  limited_refused : checked.1 ≡ false → limited ≡ (too_many category, (store, s))
  unfolding rate_limited
  limited_refused h = rw (h, refused_store h) refl

  limited_viewed :
      checked.1 ≡ true
      → limited ≡ (with_limits category checked.2 (view r s).0, (checked.0, (view r s).1))
  unfolding rate_limited
  limited_viewed h = rw h refl

  limiter_allowed :
      (result : HttpResponse × (Cache × (Buckets × S)))
      → checked.1 ≡ true
      → result.1.1.0 ≡ checked.0
      → checked ≡ (result.1.1.0, true, checked.2)
  limiter_allowed result h p =
      ap (λ b. (checked.0, b, checked.2)) h ∙ ap (λ x. (x, true, checked.2)) (sym p)

  -- An answer of the view, stored or not, is handed on.
  passed :
      (result : HttpResponse × (Cache × (Buckets × S)))
      → IsNotStored e r cache
      → checked.1 ≡ true
      → result.0 ≡ limited.0
      → result.1.1 ≡ limited.1
      → IsAnswered e view r (cache, (store, s)) result
  passed result fresh h q p =
      IsAnswered.viewed checked.2 fresh
        (limiter_allowed result h (ap (λ x. x.0) p ∙ ap (λ x. x.1.0) (limited_viewed h)))
        (q ∙ ap (λ x. x.0) (limited_viewed h))
        (ap (λ x. x.1) p ∙ ap (λ x. x.1.1) (limited_viewed h))

  not_stored :
      IsNotStored e r cache
      → IsAnswered e view r (cache, (store, s)) (limited.0, (cache, limited.1))
  not_stored fresh = elim (Bool-cases checked.1) [
    | inl ok ↦ passed (limited.0, (cache, limited.1)) fresh ok refl refl
    | inr over ↦ IsAnswered.refused fresh over (rw (limited_refused over) refl)
  ]

  stored_if_success :
      (key : String)
      → IsNotStored e r cache
      → IsAnswered e view r
          (cache, (store, s))
          (run_and_store e.set_works e.stored_at key limited cache)
  unfolding run_and_store is_success too_many
  stored_if_success key fresh = elim (Bool-cases checked.1) [
    | inl ok ↦ passed (run_and_store e.set_works e.stored_at key limited cache) fresh ok refl refl
    | inr over ↦ IsAnswered.refused fresh over (rw (limited_refused over) refl)
  ]

-- Each request ends in one of three ways. It is answered with the response that is stored under its key,
-- and nothing changes, no token of its bucket either. Or no answer is stored, the rate limiter refuses it,
-- the answer is 429, and nothing changes, so that the refusal is not stored under its key. Or no answer is
-- stored, the rate limiter allows it, the buckets are the ones that it leaves, the answer is that of the view
-- with the headers of the limit, and the view has run once.
pub handle_request-IsAnswered :
    {S : Type 0} (e : Environment) (view : Request → S → HttpResponse × S) (r : Request)
    (cache : Cache) (store : Buckets) (s : S)
    → IsAnswered e view r (cache, (store, s)) (handle_request e view r (cache, (store, s)))
unfolding handle_request idempotent
handle_request-IsAnswered e view r cache store s = elim (Option-cases (request_key r)) [
  | inl none_given ↦
      rw (none_given, idempotent) (not_stored e view r cache store s (inl none_given))
  | inr (key, given) ↦
      elim (Option-cases (get_cached_response e.get_works e.asked_at (cache key))) [
        | inr (d, hit) ↦
            IsAnswered.replayed key d given hit (rw (given, idempotent) (rw (hit, idempotent) refl))
        | inl miss ↦
            rw (given, idempotent)
              (rw (miss, idempotent)
                (stored_if_success e view r cache store s key (inr (key, given, miss))))
      ]
]
