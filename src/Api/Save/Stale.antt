-- ===== src/Api/Save/Stale.antt =====
-- A change of a job whose row is written by others between the reading and the saving.
use job_schedular.Base.{
  ℕ, ◌≡◌, sym, subst, ◌⊎◌, inl, inr, true, false, Bool-cases, ◌==◌, All, All-of_mem,
}
use mathlib.Core.Option.{some-injective}
use job_schedular.Table.{update}
use job_schedular.Table.Rows.{All-update_cases}
use job_schedular.Models.{Job, Database}
use job_schedular.Scheduler.Tick.{Calendar}
use job_schedular.Api.Serializer.{JobData}
use job_schedular.Api.Save.{schedule_changed, update_job}
use job_schedular.Api.Save.Schedule.{unchanged-IsSameSchedule}
use job_schedular.Api.Save.Changed.{IsChanged, is_updated, update_job-IsUpdate}

-- A row of the table is another job, or has the columns that were not sent as they were read.
abbrev pub IsRestored : JobData → Job → Job → Type 0
IsRestored d read j =
    ((j.id == read.id) ≡ false)
    ⊎ ((j.status ≡ read.status)
        × (j.last_run_at ≡ read.last_run_at)
        × ((schedule_changed read d ≡ true) ⊎ (j.next_run_at ≡ read.next_run_at)))

module _ (cal : Calendar) (now saved_at : ℕ) (d : JobData) (read new : Job)
    (changed : IsChanged cal now saved_at d read new) where
  kept_next : (schedule_changed read d ≡ true) ⊎ (new.next_run_at ≡ read.next_run_at)
  kept_next = elim (Bool-cases (schedule_changed read d)) [
    | inl differs ↦ inl differs
    | inr same ↦ elim changed.next [
      | inl kept ↦ inr (kept.1)
      | inr moved ↦ absurd (moved.0 (unchanged-IsSameSchedule d read new changed.schedule same))
    ]
  ]

  overwritten : (j : Job) → (j.id == new.id) ≡ true → IsRestored d read new
  overwritten j hit = inr (changed.status, changed.last_run_at, kept_next)

  other_job : (j : Job) → (j.id == new.id) ≡ false → IsRestored d read j
  other_job j miss = inl (subst (λ i. (j.id == i) ≡ false) changed.id miss)

-- The save of a change writes the whole row: whatever others have written to the job since it was read, then
-- either the change fails with nothing written, or the row has the status and the last run that were read, and
-- the next occurrence too unless the schedule was changed. A DELETE in between, which makes a job INACTIVE, is
-- undone, and so is the advance of a tick.
pub update_job-restores :
    (cal : Calendar) (now saved_at : ℕ) (d : JobData) (read : Job) (db : Database)
    → let (after, result) = update_job cal now saved_at d read db in
      ((after ≡ db) × (is_updated result ≡ false)) ⊎ All (IsRestored d read) after.jobs
update_job-restores cal now saved_at d read db =
    elim (update_job-IsUpdate cal now saved_at d read db) [
      | inl failed ↦ inl failed
      | inr (job, new, same, e, changed) ↦
          let is_read =
            subst (λ x. IsChanged cal now saved_at d x new) (sym (some-injective read job same))
              changed in
          rw e (inr (restored new is_read))
    ]
  where
    restored :
        (new : Job)
        → IsChanged cal now saved_at d read new
        → All (IsRestored d read) (update (λ j. j.id == new.id) (λ _. new) db.jobs)
    restored new changed =
        All-update_cases (λ j. Unit {0}) (IsRestored d read) (λ j. j.id == new.id) (λ _. new)
          (λ j u hit. overwritten cal now saved_at d read new changed j hit)
          (λ j u miss. other_job cal now saved_at d read new changed j miss) db.jobs
          (All-of_mem (λ j. Unit {0}) db.jobs (λ j m. tt))
