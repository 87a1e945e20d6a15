-- ===== src/Scheduler/Tick/Once.antt =====
-- The runs of a job for one scheduled time, and the rows that a tick adds.
use job_schedular.Base.{
  ℕ, ◌+◌, ◌≤◌, ◌≡◌, subst, inl, inr, Bool, true, false, List, [], ◌∷◌, arith, ◌==◌, ==_iff,
  if◌then◌else◌, Bool-cases, Option-cases, &&-true, length, length-append,
}
use job_schedular.Table.{count, exists, insert}
use job_schedular.Table.Counts.{count-insert_first, exists-false→count}
use job_schedular.Models.{Job, JobRun, Database, new_run}
use job_schedular.Scheduler.Tick.{
  Calendar, scheduled_time, is_run_of, create_run_for_job, reschedule_job, calculate_next_run,
  schedule_job, schedule_jobs,
}

-- No job has two runs for one scheduled time.
abbrev pub HasOneRunEach : List JobRun → Type 0
HasOneRunEach runs = (job_id t : ℕ) → count (is_run_of job_id t) runs ≤ 1

-- The tables of runs, attempts and events have grown by the same number of rows.
abbrev pub HasGrownBy : ℕ → Database → Database → Type 0
HasGrownBy n db db' =
    (length db'.runs ≡ length db.runs + n)
    × (length db'.attempts ≡ length db.attempts + n)
    × (length db'.events ≡ length db.events + n)

abbrev counted : Bool → ℕ
counted b = if b then 1 else 0

abbrev IsRight : Database → Database × ℕ → Type 0
IsRight db r = (HasOneRunEach db.runs → HasOneRunEach r.0.runs) × HasGrownBy r.1 db r.0

insert-HasOneRunEach :
    (r : JobRun) (runs : List JobRun)
    → exists (is_run_of r.job_id r.scheduled_for) runs ≡ false
    → HasOneRunEach runs
    → HasOneRunEach (insert r runs)
insert-HasOneRunEach r runs fresh one job_id t =
    count-insert_first (is_run_of job_id t) r runs (one job_id t) none_yet
  where
    both :
        is_run_of job_id t r ≡ true
        → ((r.job_id == job_id) ≡ true) × ((r.scheduled_for == t) ≡ true)
    both h = &&-true h

    none_yet : is_run_of job_id t r ≡ true → count (is_run_of job_id t) runs ≡ 0
    none_yet h =
        let same_job : r.job_id ≡ job_id = (==_iff r.job_id job_id).0 (both h).0 in
        let same_time : r.scheduled_for ≡ t = (==_iff r.scheduled_for t).0 (both h).1 in
        subst (λ i. count (is_run_of i t) runs ≡ 0) same_job
          (subst (λ u. count (is_run_of r.job_id u) runs ≡ 0) same_time
            (exists-false→count (is_run_of r.job_id r.scheduled_for) runs fresh))

length-insert : {A : Type 0} (a : A) (xs : List A) → length (insert a xs) ≡ length xs + 1
length-insert a xs = length-append xs (a ∷ [])

create_run-IsRight :
    (clock : ℕ → ℕ) (job : Job) (now : ℕ) (db : Database)
    → let r = create_run_for_job clock job now db in IsRight db (r.0, counted r.1)
unfolding create_run_for_job new_run
create_run-IsRight clock job now db =
    elim (Bool-cases (exists (is_run_of job.id (scheduled_time job now)) db.runs)) [
      | inl e ↦ rw e ((λ h. h), (omega arith, omega arith, omega arith))
      | inr e ↦ rw e (
        insert-HasOneRunEach _ db.runs e,
        (length-insert _ db.runs, length-insert _ db.attempts, length-insert _ db.events),
      )
    ]

schedule_job-IsRight :
    (c : Calendar) (clock : ℕ → ℕ) (now : ℕ) (job : Job) (db : Database)
    → let r = schedule_job c clock now job db in IsRight db (r.0, counted r.1)
unfolding schedule_job reschedule_job
schedule_job-IsRight c clock now job db = elim (Option-cases (calculate_next_run c job now)) [
  | inl e ↦ rw (e, schedule_job) ((λ h. h), (omega arith, omega arith, omega arith))
  | inr (next, e) ↦ rw (e, schedule_job) (create_run-IsRight clock job now db)
]

schedule_jobs-IsRight :
    (c : Calendar) (clock : ℕ → ℕ) (now : ℕ) (jobs : List Job) (db : Database)
    → IsRight db (schedule_jobs c clock now jobs db)
unfolding schedule_jobs
schedule_jobs-IsRight c clock now [] db = ((λ h. h), (omega arith, omega arith, omega arith))
schedule_jobs-IsRight c clock now (job ∷ jobs) db =
    let first = schedule_job-IsRight c clock now job db in
    let rest = schedule_jobs-IsRight c clock now jobs (schedule_job c clock now job db).0 in
    (
      (λ h. rest.0 (first.0 h)),
      (
        omega (arith, first.1.0, rest.1.0),
        omega (arith, first.1.1, rest.1.1),
        omega (arith, first.1.2, rest.1.2),
      ),
    )

-- If no job has two runs for one scheduled time, then none has after the loop of a tick over any list
-- of jobs; and the tables of runs, attempts and outbox events each grow by as many rows as the loop
-- says it created.
pub schedule_jobs-HasOneRunEach :
    (c : Calendar) (clock : ℕ → ℕ) (now : ℕ) (jobs : List Job) (db : Database)
    → HasOneRunEach db.runs
    → let (after, created) = schedule_jobs c clock now jobs db in
      HasOneRunEach after.runs × HasGrownBy created db after
schedule_jobs-HasOneRunEach c clock now jobs db h =
    let right = schedule_jobs-IsRight c clock now jobs db in (right.0 h, right.1)
