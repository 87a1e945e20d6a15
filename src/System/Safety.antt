-- ===== src/System/Safety.antt =====
-- What holds of every reachable database.
use job_schedular.Base.{
  ℕ, ◌≤◌, ◌≡◌, inl, inr, Bool, true, List, Memᴰ, arith, ◌==◌, ==_iff, &&-true, Bool-cases, All,
}
use job_schedular.Table.{count}
use job_schedular.Models.{Job, JobAttempt, is_active_of}
use job_schedular.System.Attempts.{is_sound, has_id}
use job_schedular.System.Tables.{HasRun, HasJob}
use job_schedular.System.Steps.{State, Reach, start}
use job_schedular.Table.Counts.{count-le_mem}
use job_schedular.Table.Rows.{row_of_count}
use job_schedular.System.Alone.{ReachAlone, Reach-of_alone}
use job_schedular.System.Alone.Keeps.{ReachAlone-IsAlone}
use job_schedular.System.Steps.Safe.{start-IsSafe, Reach-IsSafe}

-- Rows with `p` that all have one id are one row.
count-one :
    (p : JobAttempt → Bool) (xs : List JobAttempt)
    → ((i : ℕ) → count (has_id i) xs ≤ 1)
    → ((a b : JobAttempt) → Memᴰ a xs → Memᴰ b xs → p a ≡ true → p b ≡ true → a.id ≡ b.id)
    → count p xs ≤ 1
count-one p xs unique same = elim (Bool-cases (count p xs == 0)) [
  | inl none_there ↦ ground arith
  | inr e ↦
      let (a, m, h) = row_of_count p xs (ground arith) in
      omega (
        arith,
        unique a.id,
        count-le_mem p (has_id a.id) xs (λ b mb hb. (==_iff b.id a.id).1 (same b a mb m hb h)),
      )
]

-- Whatever the one scheduler, the workers, the requests and the operators do and in whichever order, no run ever
-- has two attempts that are QUEUED or RUNNING, and no two attempts share an id. One scheduler means that no
-- transaction of a watchdog reads an expired attempt while another one is under way. The database starts with
-- jobs alone.
pub Reach-one_active :
    (jobs : List Job) (s : State)
    → ReachAlone (start jobs) s
    → (i : ℕ) → (count (is_active_of i) s.db.attempts ≤ 1) × (count (has_id i) s.db.attempts ≤ 1)
Reach-one_active jobs s r i =
    let unique = (Reach-IsSafe (start-IsSafe jobs) (Reach-of_alone r)).tables.attempts.unique_ids in
    let one = (ReachAlone-IsAlone jobs s r).one in
    (
      count-one (is_active_of i) s.db.attempts unique (λ a b ma mb ha hb.
          one a b ma mb (&&-true ha).1 (&&-true hb).1 (
            omega (
              arith,
              (==_iff a.job_run_id i).0 (&&-true ha).0,
              (==_iff b.job_run_id i).0 (&&-true hb).0,
            ))),
      unique i,
    )

-- The columns of an attempt agree: a QUEUED one has fencing token 0, one that timed out 0 or 1, any other one
-- token 1, and a RUNNING one has a worker and a lease.
abbrev pub IsConsistent : JobAttempt → Type 0
IsConsistent a = is_sound a ≡ true

-- With any number of schedulers, in every reachable database the columns of each attempt agree (token 0 while
-- QUEUED, token 1 with a worker and a lease while RUNNING, 0 or 1 once TIMED_OUT, and else 1), and its run and its
-- job are in their tables.
pub Reach-IsConsistent :
    (jobs : List Job) (s : State)
    → Reach (start jobs) s
    → All IsConsistent s.db.attempts
      × All (HasRun s.db.runs) s.db.attempts
      × All (HasJob s.db.jobs) s.db.attempts
Reach-IsConsistent jobs s r =
    let safe = Reach-IsSafe (start-IsSafe jobs) r in
    (safe.tables.attempts.sound, safe.tables.known_runs, safe.tables.known_jobs)
