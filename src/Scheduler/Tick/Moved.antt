-- ===== src/Scheduler/Tick/Moved.antt =====
-- The jobs that a tick takes are not due any more after it.
use job_schedular.Base.{
  Bool, ℕ, ◌<◌, ◌≡◌, ◌⊎◌, inl, inr, false, ◌&&◌, String, Option, none, some, List, [], ◌∷◌, arith,
  ◌==◌, Option-cases, All, All-of_mem,
}
use job_schedular.Table.Rows.{All-update, All-update_cases}
use job_schedular.OrderBy.{OrderBy}
use job_schedular.Models.{Job, Database}
use job_schedular.Scheduler.Tick.{
  Calendar, aware, with_timezone, calculate_next_run, create_run_for_job, moved_to, reschedule_job,
  schedule_job, schedule_jobs, is_due_at, PriorityText, due_jobs, tick,
}

-- croniter, from a time with a zone: it raises, or gives a later time with a zone.
abbrev pub IsForward : Calendar → Type 0
IsForward c =
    (expression : Option String) (after : ℕ)
    → (c.next expression after ≡ none)
      ⊎ ((t : ℕ) × (c.next expression after ≡ some (aware t)) × (after < t))

-- No row with the id is due.
abbrev pub IsMovedOn : ℕ → ℕ → Job → Type 0
IsMovedOn now id j = (j.id == id && is_due_at now j.next_run_at) ≡ false

module _ (c : Calendar) (forward : IsForward c) (clock : ℕ → ℕ) (now : ℕ) where
  next_not_due :
      (job : Job) (next : Option ℕ)
      → calculate_next_run c job now ≡ some next
      → is_due_at now next ≡ false
  unfolding calculate_next_run with_timezone
  next_not_due job next e = elim (forward job.cron_expression now) [
    | inl r ↦ ground (arith, r)
    | inr (t, r, later) ↦ ground (arith, r, later)
  ]

  jobs-create_run :
      (job : Job) (db : Database) → (create_run_for_job clock job now db).0.jobs ≡ db.jobs
  unfolding create_run_for_job
  jobs-create_run job db = ground arith

  schedule_job-keeps :
      (id : ℕ) (job : Job) (db : Database)
      → All (IsMovedOn now id) db.jobs
      → All (IsMovedOn now id) (schedule_job c clock now job db).0.jobs
  unfolding schedule_job reschedule_job moved_to
  schedule_job-keeps id job db all = elim (Option-cases (calculate_next_run c job now)) [
    | inl e ↦ rw (e, schedule_job) all
    | inr (next, e) ↦
        rw (e, schedule_job, jobs-create_run job db)
          (All-update (IsMovedOn now id) (λ j. j.id == job.id) (moved_to next now)
            (λ j h q. ground (arith, next_not_due job next e)) db.jobs all)
  ]

  -- The job itself is moved on, unless croniter raises.
  schedule_job-moves :
      (job : Job) (db : Database)
      → (calculate_next_run c job now ≡ none)
        ⊎ All (IsMovedOn now job.id) (schedule_job c clock now job db).0.jobs
  unfolding schedule_job reschedule_job moved_to
  schedule_job-moves job db = elim (Option-cases (calculate_next_run c job now)) [
    | inl e ↦ inl e
    | inr (next, e) ↦ inr (
        rw (e, schedule_job, jobs-create_run job db)
          (All-update_cases (λ j. Unit {0}) (IsMovedOn now job.id) (λ j. j.id == job.id)
            (moved_to next now) (λ j u q. ground (arith, next_not_due job next e))
            (λ j u q. ground arith) db.jobs (All-of_mem (λ j. Unit {0}) db.jobs (λ j m. tt))))
  ]

  schedule_jobs-keeps :
      (id : ℕ) (jobs : List Job) (db : Database)
      → All (IsMovedOn now id) db.jobs
      → All (IsMovedOn now id) (schedule_jobs c clock now jobs db).0.jobs
  unfolding schedule_jobs
  schedule_jobs-keeps id [] db all = all
  schedule_jobs-keeps id (job ∷ jobs) db all =
      schedule_jobs-keeps id jobs _ (schedule_job-keeps id job db all)

  schedule_jobs-moves :
      (jobs : List Job) (db : Database)
      → All
          (λ j.
            (calculate_next_run c j now ≡ none)
            ⊎ All (IsMovedOn now j.id) (schedule_jobs c clock now jobs db).0.jobs)
          jobs
  unfolding schedule_jobs
  schedule_jobs-moves [] db = tt
  schedule_jobs-moves (job ∷ jobs) db = (
    elim (schedule_job-moves job db) [
      | inl e ↦ inl e
      | inr all ↦ inr (schedule_jobs-keeps job.id jobs _ all)
    ],
    schedule_jobs-moves jobs _,
  )

-- If croniter gives only times behind the one that it is asked from, then after a tick no job that the tick
-- took is due any more at the time of the tick, except for those whose expression croniter refuses.
pub tick-IsMovedOn :
    (c : Calendar) (o : OrderBy PriorityText) (clock : ℕ → ℕ) (locked : ℕ → Bool) (now : ℕ)
    (db : Database)
    → IsForward c
    → All
        (λ j.
          (calculate_next_run c j now ≡ none)
          ⊎ All (IsMovedOn now j.id) (tick c o clock locked now db).0.jobs)
        (due_jobs o locked now db)
unfolding tick
tick-IsMovedOn c o clock locked now db forward =
    schedule_jobs-moves c forward clock now (due_jobs o locked now db) db
