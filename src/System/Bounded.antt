-- ===== src/System/Bounded.antt =====
-- No run ever has more than ten attempts, the largest retry limit that the API accepts.
pub mod Parts
pub mod Completion
pub mod Always
use job_schedular.Base.{
  ℕ, suc, ◌+◌, ◌≤◌, ◌<◌, ◌≡◌, refl, subst, sym, inl, inr, Bool, true, false, Option, none, some,
  List, [], ◌∷◌, arith, ◌==◌, ==_iff, Bool-cases, if◌then◌else◌, All, All-append, All-map,
}
use job_schedular.Table.{count, update, insert}
use job_schedular.Table.Counts.{count-insert, count_fresh, count-update-eq}
use job_schedular.Models.{Job, JobAttempt, Database}
use job_schedular.Worker.Main.{of_run}
use job_schedular.Scheduler.Watchdog.Bound.{IsBounded}
use job_schedular.Api.Save.Limits.{AllLimited}

-- The bound, and that the ids of runs are behind the next id.
pub record IsLimited (db : Database) : Type 0 where
  pub jobs : AllLimited db.jobs
  pub runs : (i : ℕ) → count (of_run i) db.attempts ≤ 10
  pub below : All (λ a. a.job_run_id < db.next_id) db.attempts

-- The same attempts, and no job with a larger limit.
pub IsLimited-jobs :
    (db after : Database)
    → AllLimited after.jobs
    → after.attempts ≡ db.attempts
    → db.next_id ≤ after.next_id
    → IsLimited db
    → IsLimited after
IsLimited-jobs db after small same later h = record {
  jobs = small;
  runs = λ i. rw same (h.runs i);
  below = rw same (
      All-map (λ a. a.job_run_id < db.next_id) (λ a. a.job_run_id < after.next_id)
        (λ a e. omega arith) db.attempts h.below);
}

-- The first attempt of a new run.
pub count-first :
    (db : Database) (a : JobAttempt)
    → IsLimited db
    → a.job_run_id ≡ db.next_id
    → (i : ℕ) → count (of_run i) (insert a db.attempts) ≤ 10
count-first db a h new i = elim (Bool-cases (a.job_run_id == i)) [
  | inr e ↦ rw (count-insert (of_run i) a db.attempts) (rw e (omega (arith, h.runs i)))
  | inl e ↦
      let none_yet : count (of_run i) db.attempts ≡ 0 =
        count_fresh (λ b. b.job_run_id) db.next_id i db.attempts h.below
          (omega (arith, new, (==_iff a.job_run_id i).0 e)) in
      rw (count-insert (of_run i) a db.attempts) (rw e (omega (arith, none_yet)))
]

pub IsLimited-first :
    (db : Database) (a : JobAttempt) (n : ℕ)
    → IsLimited db
    → a.job_run_id ≡ db.next_id
    → db.next_id < n
    → All (λ b. b.job_run_id < n) (insert a db.attempts)
IsLimited-first db a n h new later =
    All-append (λ b. b.job_run_id < n) db.attempts (a ∷ [])
      (All-map (λ b. b.job_run_id < db.next_id) (λ b. b.job_run_id < n) (λ b e. omega arith)
        db.attempts h.below)
      (omega (arith, new), tt)

-- An update that moves no attempt to another run.
pub count-same_run :
    (db : Database) (q : JobAttempt → Bool) (f : JobAttempt → JobAttempt)
    → IsLimited db
    → ((a : JobAttempt) → (f a).job_run_id ≡ a.job_run_id)
    → (i : ℕ) → count (of_run i) (update q f db.attempts) ≤ 10
count-same_run db q f h same i =
    rw (count-update-eq (of_run i) q f (λ a e. rw (same a) refl) db.attempts) (h.runs i)
