-- ===== src/Http/Idempotency/Replay.antt =====
-- What a retry with the same key gets.
use job_schedular.Base.{
  ℕ, ◌+◌, ◌*◌, ◌<◌, ◌≡◌, refl, ◌∙◌, Bool, true, none, some, [], String, arith, eq_iff,
}
use job_schedular.Models.{second}
use job_schedular.Http.Data.{Request, HttpResponse, text, set_header}
use job_schedular.Http.Idempotency.{
  Cache, request_key, ttl_seconds, stored_response, replayed, assign_headers, type_or_json,
  get_cached_response, is_success, put, run_and_store, idempotent,
}

-- The answer that is given again: the stored one, with the header that marks a replay.
unfoldable pub replay_of : HttpResponse → HttpResponse
replay_of r = record {
  status_code = r.status_code;
  content = r.content;
  content_type = some (type_or_json r.content_type);
  headers = set_header "X-Idempotent-Replay" (text "true") (assign_headers r.headers []);
}

module _ {S : Type 0} (get_works set_works : Bool) (now stored_at : ℕ)
    (view : Request → S → HttpResponse × S) (r : Request) (key : String) (cache : Cache) (s : S)
    (k : request_key r ≡ some key) where
  idempotent-miss :
      get_cached_response get_works now (cache key) ≡ none
      → idempotent get_works set_works now stored_at view r (cache, s)
        ≡ run_and_store set_works stored_at key (view r s) cache
  unfolding idempotent
  idempotent-miss miss = rw (k, idempotent) (rw (miss, idempotent))

  idempotent-hit :
      (d : HttpResponse)
      → get_cached_response get_works now (cache key) ≡ some d
      → idempotent get_works set_works now stored_at view r (cache, s) ≡ (d, (cache, s))
  unfolding idempotent
  idempotent-hit d hit = rw (k, idempotent) (rw (hit, idempotent))

-- A stored answer is there until it expires.
cached_again :
    (key : String) (stored_at later : ℕ) (response : HttpResponse) (cache : Cache)
    → later < stored_at + ttl_seconds * second
    → get_cached_response true later (put true key (stored_response stored_at response) cache key)
      ≡ some (replay_of response)
unfolding get_cached_response put stored_response replayed replay_of
cached_again key stored_at later response cache h = ground (arith, eq_iff key key)

stored_on_success :
    {S : Type 0} (set_works : Bool) (now : ℕ) (key : String) (result : HttpResponse × S)
    (cache : Cache)
    → is_success result.0 ≡ true
    → run_and_store set_works now key result cache
      ≡ (result.0, (put set_works key (stored_response now result.0) cache, result.1))
unfolding run_and_store
stored_on_success set_works now key result cache ok = rw ok

-- Two requests with the same key, from the same user and address: if the first ran its view and
-- succeeded, a second that comes before the answer expires gets the same answer, marked as a replay,
-- and its view does not run: the state and the cache stay as the first request left them. Redis
-- works in both.
pub idempotent_twice :
    {S : Type 0} (view : Request → S → HttpResponse × S) (r r' : Request) (key : String)
    (now stored_at later later_stored : ℕ) (cache : Cache) (s : S)
    → request_key r ≡ some key
    → request_key r' ≡ some key
    → get_cached_response true now (cache key) ≡ none
    → is_success (view r s).0 ≡ true
    → later < stored_at + ttl_seconds * second
    → let (first, after) = idempotent true true now stored_at view r (cache, s) in
      (first ≡ (view r s).0)
      × (after.1 ≡ (view r s).1)
      × (idempotent true true later later_stored view r' after ≡ (replay_of first, after))
idempotent_twice view r r' key now stored_at later later_stored cache s k k' miss ok h = rw first (
  refl,
  refl,
  idempotent-hit true true later later_stored view r' key _ (view r s).1 k' _
      (cached_again key stored_at later (view r s).0 cache h),
)
  where
    first : idempotent true true now stored_at view r (cache, s) ≡ (
      (view r s).0,
      (put true key (stored_response stored_at (view r s).0) cache, (view r s).1),
    )
    first =
        idempotent-miss true true now stored_at view r key cache s k miss
        ∙ stored_on_success true stored_at key (view r s) cache ok
