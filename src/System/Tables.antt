-- ===== src/System/Tables.antt =====
-- What holds of the tables of jobs, runs and attempts between two steps: the attempts are in order,
-- the keys of runs are unique, and every attempt has its run and its job. One lemma for each way in
-- which the operations change the tables.
use job_schedular.Base.{
  ℕ, ◌≤◌, ◌<◌, ◌≡◌, sym, subst, Bool, true, false, ◌&&◌, List, [], ◌∷◌, Memᴰ, arith, ◌==◌, All,
  All-append, All-map, if◌then◌else◌,
}
use job_schedular.Table.{count, exists, update, delete, insert}
use job_schedular.Table.Counts.{
  count-update-eq, count-le-of_delete, count-insert, count-insert_first, count_fresh,
  count-delete_other,
}
use job_schedular.Table.Rows.{All-update, All-delete, All-delete_kept}
use job_schedular.Models.{Job, JobRun, JobAttempt, Database}
use job_schedular.System.Attempts.{
  AttemptsOk, AttemptsOk-mono, AttemptsOk-delete, AttemptsOk-update, AttemptsOk-insert, is_sound,
}

abbrev pub run_has_id : ℕ → JobRun → Bool
run_has_id i r = r.id == i

abbrev pub job_has_id : ℕ → Job → Bool
job_has_id i j = j.id == i

abbrev pub HasRun : List JobRun → JobAttempt → Type 0
HasRun runs a = 0 < count (run_has_id a.job_run_id) runs

abbrev pub HasJob : List Job → JobAttempt → Type 0
HasJob jobs a = 0 < count (job_has_id a.job_id) jobs

pub record TablesOk (jobs : List Job) (runs : List JobRun) (xs : List JobAttempt) (next : ℕ)
    : Type 0 where
  pub attempts : AttemptsOk next xs
  pub runs_below : All (λ r. r.id < next) runs
  pub unique_runs : (i : ℕ) → count (run_has_id i) runs ≤ 1
  pub known_runs : All (HasRun runs) xs
  pub known_jobs : All (HasJob jobs) xs

abbrev pub Ok : Database → Type 0
Ok db = TablesOk db.jobs db.runs db.attempts db.next_id

module _ {jobs : List Job} {runs : List JobRun} {xs : List JobAttempt} {next : ℕ}
    (ok : TablesOk jobs runs xs next) where
  pub TablesOk-update_attempts :
      (q : JobAttempt → Bool) (f : JobAttempt → JobAttempt)
      → ((a : JobAttempt) → (f a).id ≡ a.id)
      → ((a : JobAttempt) → (f a).job_run_id ≡ a.job_run_id)
      → ((a : JobAttempt) → (f a).job_id ≡ a.job_id)
      → ((a : JobAttempt) → Memᴰ a xs → is_sound a ≡ true → q a ≡ true → is_sound (f a) ≡ true)
      → TablesOk jobs runs (update q f xs) next
  TablesOk-update_attempts q f same_id same_run same_job still = record {
    attempts = AttemptsOk-update xs ok.attempts q f same_id same_run still;
    runs_below = ok.runs_below;
    unique_runs = ok.unique_runs;
    known_runs =
        All-update (HasRun runs) q f
          (λ a h e. subst (λ i. 0 < count (run_has_id i) runs) (sym (same_run a)) h) xs
          ok.known_runs;
    known_jobs =
        All-update (HasJob jobs) q f
          (λ a h e. subst (λ i. 0 < count (job_has_id i) jobs) (sym (same_job a)) h) xs
          ok.known_jobs;
  }

  pub TablesOk-insert_attempt :
      (a : JobAttempt) (n : ℕ)
      → next ≤ a.id
      → a.id < n
      → a.job_run_id < n
      → is_sound a ≡ true
      → HasRun runs a
      → HasJob jobs a
      → TablesOk jobs runs (insert a xs) n
  TablesOk-insert_attempt a n fresh below run good has_run has_job = record {
    attempts = AttemptsOk-insert xs ok.attempts a n fresh below run good;
    runs_below = All-map (λ r. r.id < next) (λ r. r.id < n) (λ r h. omega arith) runs ok.runs_below;
    unique_runs = ok.unique_runs;
    known_runs = All-append (HasRun runs) xs (a ∷ []) ok.known_runs (has_run, tt);
    known_jobs = All-append (HasJob jobs) xs (a ∷ []) ok.known_jobs (has_job, tt);
  }

  pub TablesOk-update_runs :
      (q : JobRun → Bool) (f : JobRun → JobRun)
      → ((r : JobRun) → (f r).id ≡ r.id)
      → TablesOk jobs (update q f runs) xs next
  TablesOk-update_runs q f same_id = record {
    attempts = ok.attempts;
    runs_below = All-update (λ r. r.id < next) q f (λ r h e. rw (same_id r) h) runs ok.runs_below;
    unique_runs = λ i. rw (same_count i) (ok.unique_runs i);
    known_runs =
        All-map (HasRun runs) (HasRun (update q f runs)) (λ a h. rw (same_count a.job_run_id) h) xs
          ok.known_runs;
    known_jobs = ok.known_jobs;
  }
    where
      same_count : (i : ℕ) → count (run_has_id i) (update q f runs) ≡ count (run_has_id i) runs
      same_count i = count-update-eq (run_has_id i) q f (λ r e. rw (same_id r)) runs

  pub TablesOk-update_jobs :
      (q : Job → Bool) (f : Job → Job)
      → ((j : Job) → q j ≡ true → (f j).id ≡ j.id)
      → TablesOk (update q f jobs) runs xs next
  TablesOk-update_jobs q f same_id = record {
    attempts = ok.attempts;
    runs_below = ok.runs_below;
    unique_runs = ok.unique_runs;
    known_runs = ok.known_runs;
    known_jobs =
        All-map (HasJob jobs) (HasJob (update q f jobs)) (λ a h. rw (same_count a.job_id) h) xs
          ok.known_jobs;
  }
    where
      same_count : (i : ℕ) → count (job_has_id i) (update q f jobs) ≡ count (job_has_id i) jobs
      same_count i = count-update-eq (job_has_id i) q f (λ j e. rw (same_id j e)) jobs

  pub TablesOk-insert_run :
      (r : JobRun) (n : ℕ) → next ≤ r.id → r.id < n → TablesOk jobs (insert r runs) xs n
  TablesOk-insert_run r n fresh below = record {
    attempts = AttemptsOk-mono (omega arith) ok.attempts;
    runs_below =
        All-append (λ s. s.id < n) runs (r ∷ [])
          (All-map (λ s. s.id < next) (λ s. s.id < n) (λ s h. omega arith) runs ok.runs_below)
          (below, tt);
    unique_runs = λ i. count-insert_first (run_has_id i) r runs (ok.unique_runs i) (unseen i);
    known_runs =
        All-map (HasRun runs) (HasRun (insert r runs))
          (λ a h. omega (arith, count-insert (run_has_id a.job_run_id) r runs)) xs ok.known_runs;
    known_jobs = ok.known_jobs;
  }
    where
      unseen : (i : ℕ) → run_has_id i r ≡ true → count (run_has_id i) runs ≡ 0
      unseen i e = count_fresh (λ s. s.id) next i runs ok.runs_below (ground arith)

  pub TablesOk-mono : {n : ℕ} → next ≤ n → TablesOk jobs runs xs n
  TablesOk-mono {n} h = record {
    attempts = AttemptsOk-mono h ok.attempts;
    runs_below = All-map (λ r. r.id < next) (λ r. r.id < n) (λ r e. omega arith) runs ok.runs_below;
    unique_runs = ok.unique_runs;
    known_runs = ok.known_runs;
    known_jobs = ok.known_jobs;
  }

  pub TablesOk-insert_job : (j : Job) → TablesOk (insert j jobs) runs xs next
  TablesOk-insert_job j = record {
    attempts = ok.attempts;
    runs_below = ok.runs_below;
    unique_runs = ok.unique_runs;
    known_runs = ok.known_runs;
    known_jobs =
        All-map (HasJob jobs) (HasJob (insert j jobs))
          (λ a h. omega (arith, count-insert (job_has_id a.job_id) j jobs)) xs ok.known_jobs;
  }

  pub TablesOk-delete_attempts : (p : JobAttempt → Bool) → TablesOk jobs runs (delete p xs) next
  TablesOk-delete_attempts p = record {
    attempts = AttemptsOk-delete xs ok.attempts p;
    runs_below = ok.runs_below;
    unique_runs = ok.unique_runs;
    known_runs = All-delete (HasRun runs) p xs ok.known_runs;
    known_jobs = All-delete (HasJob jobs) p xs ok.known_jobs;
  }

  -- Runs go with their attempts.
  pub TablesOk-delete_runs :
      (old : JobRun → Bool)
      → TablesOk jobs
          (delete old runs)
          (delete (λ a. exists (λ r. r.id == a.job_run_id && old r) runs) xs)
          next
  TablesOk-delete_runs old = record {
    attempts = AttemptsOk-delete xs ok.attempts _;
    runs_below = All-delete (λ r. r.id < next) old runs ok.runs_below;
    unique_runs = λ i. omega (arith, ok.unique_runs i, count-le-of_delete (run_has_id i) old runs);
    known_runs =
        All-delete_kept (HasRun runs) (HasRun (delete old runs)) _
          (λ a h e. rw (count-delete_other (run_has_id a.job_run_id) old runs e) h) xs
          ok.known_runs;
    known_jobs = All-delete (HasJob jobs) _ xs ok.known_jobs;
  }

-- Either branch.
pub Ok-if :
    {T : Type 0} (b : Bool) (x y : Database × T) → Ok x.0 → Ok y.0 → Ok (if b then x else y).0
Ok-if true x y hx hy = hx
Ok-if false x y hx hy = hy
