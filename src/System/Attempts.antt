-- ===== src/System/Attempts.antt =====
-- What holds of the table of attempts between two steps, and the three ways to change the table
-- that keep it.
use job_schedular.Base.{
  ℕ, ◌≤◌, ◌<◌, ◌≡◌, refl, sym, ◌∙◌, Bool, true, false, ◌&&◌, Option, none, some, List, [], ◌∷◌,
  String, Memᴰ, arith, leb, ◌==◌, ==_iff, All, All-append, All-map,
}
use mathlib.Core.Option.{some-injective}
use job_schedular.Table.{count, update, delete, insert}
use job_schedular.Table.Counts.{
  count-update-le, count-le-of_delete, count-insert_first, count_fresh,
}
use job_schedular.Table.Rows.{All-update_mem, All-delete, find?_of_unique}
use job_schedular.Models.{JobAttempt}
use job_schedular.Models.Status.{AttemptStatus}

abbrev pub has_id : ℕ → JobAttempt → Bool
has_id i a = a.id == i

abbrev pub is_some {ℓ} : {A : Type ℓ} → Option A → Bool
is_some none = false
is_some (some a) = true

-- A queued attempt has token 0, a running one token 1, a worker and a lease, one that timed out token 0
-- or 1, and any other one token 1.
abbrev pub is_sound_row : AttemptStatus → ℕ → Option String → Option ℕ → Bool
is_sound_row AttemptStatus.queued token worker lease = token == 0
is_sound_row AttemptStatus.running token worker lease =
    token == 1 && (is_some worker && is_some lease)
is_sound_row AttemptStatus.timed_out token worker lease = leb token 1
is_sound_row _ token worker lease = token == 1

abbrev pub is_sound : JobAttempt → Bool
is_sound a = is_sound_row a.status a.fencing_token a.worker_id a.lease_expires_at

pub record AttemptsOk (next : ℕ) (xs : List JobAttempt) : Type 0 where
  pub ids_below : All (λ a. a.id < next) xs
  pub runs_below : All (λ a. a.job_run_id < next) xs
  pub unique_ids : (i : ℕ) → count (has_id i) xs ≤ 1
  pub sound : All (λ a. is_sound a ≡ true) xs

-- Two rows of the table with one id are one row.
pub row_of_id :
    {next : ℕ} {xs : List JobAttempt}
    → AttemptsOk next xs
    → (a b : JobAttempt) → Memᴰ a xs
    → Memᴰ b xs
    → a.id ≡ b.id
    → a ≡ b
row_of_id {next} {xs} ok a b ma mb e = some-injective a b (
    sym (find?_of_unique (has_id b.id) xs a (ok.unique_ids b.id) ma ((==_iff a.id b.id).1 e))
    ∙ find?_of_unique (has_id b.id) xs b (ok.unique_ids b.id) mb ((==_iff b.id b.id).1 refl))

pub AttemptsOk-empty : AttemptsOk 0 []
unfolding count
AttemptsOk-empty = record {
  ids_below = tt;
  runs_below = tt;
  unique_ids = λ i. omega arith;
  sound = tt;
}

pub AttemptsOk-mono : {m n : ℕ} {xs : List JobAttempt} → m ≤ n → AttemptsOk m xs → AttemptsOk n xs
AttemptsOk-mono {xs = xs} h ok = record {
  ids_below = All-map (λ a. a.id < _) (λ a. a.id < _) (λ a k. omega arith) xs ok.ids_below;
  runs_below =
      All-map (λ a. a.job_run_id < _) (λ a. a.job_run_id < _) (λ a k. omega arith) xs ok.runs_below;
  unique_ids = ok.unique_ids;
  sound = ok.sound;
}

module _ {next : ℕ} (xs : List JobAttempt) (ok : AttemptsOk next xs) where
  pub AttemptsOk-delete : (q : JobAttempt → Bool) → AttemptsOk next (delete q xs)
  AttemptsOk-delete q = record {
    ids_below = All-delete (λ a. a.id < next) q xs ok.ids_below;
    runs_below = All-delete (λ a. a.job_run_id < next) q xs ok.runs_below;
    unique_ids = λ i. omega (arith, ok.unique_ids i, count-le-of_delete (has_id i) q xs);
    sound = All-delete (λ a. is_sound a ≡ true) q xs ok.sound;
  }

  -- An update that keeps the keys and keeps the rows sound.
  pub AttemptsOk-update :
      (q : JobAttempt → Bool) (f : JobAttempt → JobAttempt)
      → ((a : JobAttempt) → (f a).id ≡ a.id)
      → ((a : JobAttempt) → (f a).job_run_id ≡ a.job_run_id)
      → ((a : JobAttempt) → Memᴰ a xs → is_sound a ≡ true → q a ≡ true → is_sound (f a) ≡ true)
      → AttemptsOk next (update q f xs)
  AttemptsOk-update q f same_id same_run still = record {
    ids_below = All-update_mem (λ a. a.id < next) q f xs (λ a m k e. rw (same_id a) k) ok.ids_below;
    runs_below =
        All-update_mem (λ a. a.job_run_id < next) q f xs (λ a m k e. rw (same_run a) k)
          ok.runs_below;
    unique_ids = λ i.
        omega
          (arith, ok.unique_ids i, count-update-le (has_id i) q f (λ a e h. rw (← same_id a) h) xs);
    sound = All-update_mem (λ a. is_sound a ≡ true) q f xs still ok.sound;
  }

  -- A new row with an id of its own.
  pub AttemptsOk-insert :
      (a : JobAttempt) (n : ℕ)
      → next ≤ a.id
      → a.id < n
      → a.job_run_id < n
      → is_sound a ≡ true
      → AttemptsOk n (insert a xs)
  AttemptsOk-insert a n fresh below run good = record {
    ids_below = All-append (λ b. b.id < n) xs (a ∷ []) grown.ids_below (below, tt);
    runs_below = All-append (λ b. b.job_run_id < n) xs (a ∷ []) grown.runs_below (run, tt);
    unique_ids = λ i. count-insert_first (has_id i) a xs (ok.unique_ids i) (unseen i);
    sound = All-append (λ b. is_sound b ≡ true) xs (a ∷ []) ok.sound (good, tt);
  }
    where
      grown : AttemptsOk n xs
      grown = AttemptsOk-mono (omega arith) ok

      unseen : (i : ℕ) → has_id i a ≡ true → count (has_id i) xs ≡ 0
      unseen i e =
          count_fresh (λ b. b.id) next i xs ok.ids_below (omega (arith, (==_iff a.id i).0 e))
