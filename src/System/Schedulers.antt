-- ===== src/System/Schedulers.antt =====
-- The scheduler's operations keep the tables in order.
use job_schedular.Base.{
  ℕ, suc, ◌<◌, ◌≡◌, refl, inl, inr, Bool, not, Option, List, [], ◌∷◌, arith, ◌==◌, ==-refl,
  Bool-cases, if_ind, Option-cases, All, All-map, All-of_mem, Memᴰ-of_take,
}
use job_schedular.Table.{count, exists, insert}
use job_schedular.Table.Counts.{count_pos_of_Memᴰ, count-update-eq, count-insert}
use job_schedular.Table.Rows.{Memᴰ-of_select}
use job_schedular.OrderBy.{OrderBy}
use job_schedular.Models.{Job, JobRun, OutboxEvent, Database, new_run, new_attempt}
use job_schedular.Scheduler.Rabbitmq.{Message}
use job_schedular.Scheduler.Publisher.{Delivery, Session, OldestFirst, publish_pending_events}
use job_schedular.Scheduler.Tick.{
  Calendar, PriorityText, due_jobs, is_due, tick, max_jobs_per_tick, create_run_for_job,
  reschedule_job, moved_to, schedule_job, schedule_jobs, calculate_next_run, is_run_of,
  scheduled_time,
}
use job_schedular.System.Tables.{
  TablesOk-insert_attempt, TablesOk-insert_run, TablesOk-update_jobs, Ok, job_has_id, run_has_id,
}

pub create_run-Ok :
    (clock : ℕ → ℕ) (job : Job) (now : ℕ) (db : Database)
    → 0 < count (job_has_id job.id) db.jobs
    → Ok db
    → Ok (create_run_for_job clock job now db).0
unfolding create_run_for_job new_run new_attempt
create_run-Ok clock job now db known ok =
    elim (Bool-cases (exists (is_run_of job.id (scheduled_time job now)) db.runs)) [
      | inl e ↦ rw e ok
      | inr e ↦ rw e (
          TablesOk-insert_attempt
            (TablesOk-insert_run ok _ (suc db.next_id) (omega arith) (omega arith)) _
            (suc (suc (suc db.next_id))) (omega arith) (omega arith) (omega arith) refl new_known
            known)
    ]
  where
    run : JobRun
    run = new_run db.next_id job.id (scheduled_time job now) (clock db.next_id)

    new_known : 0 < count (run_has_id db.next_id) (insert run db.runs)
    new_known =
        rw (count-insert (run_has_id db.next_id) run db.runs) (ground (arith, ==-refl db.next_id))

reschedule_job-Ok :
    (job : Job) (next : Option ℕ) (now : ℕ) (db : Database)
    → Ok db
    → Ok (reschedule_job job next now db)
unfolding reschedule_job moved_to
reschedule_job-Ok job next now db ok = TablesOk-update_jobs ok (λ j. j.id == job.id) _ (λ j e. refl)

-- A job of the list is in the table.
abbrev Known : Database → Job → Type 0
Known db job = 0 < count (job_has_id job.id) db.jobs

jobs-create_run :
    (clock : ℕ → ℕ) (job : Job) (now : ℕ) (db : Database)
    → (create_run_for_job clock job now db).0.jobs ≡ db.jobs
unfolding create_run_for_job
jobs-create_run clock job now db = ground arith

schedule_job-Ok :
    (c : Calendar) (clock : ℕ → ℕ) (now : ℕ) (job : Job) (db : Database)
    → Known db job
    → Ok db
    → Ok (schedule_job c clock now job db).0
unfolding schedule_job
schedule_job-Ok c clock now job db known ok = elim (Option-cases (calculate_next_run c job now)) [
  | inl e ↦ rw (e, schedule_job) ok
  | inr (next, e) ↦
      rw (e, schedule_job)
        (reschedule_job-Ok job next now _ (create_run-Ok clock job now db known ok))
]

schedule_job-Known :
    (c : Calendar) (clock : ℕ → ℕ) (now : ℕ) (job other : Job) (db : Database)
    → Known db other
    → Known (schedule_job c clock now job db).0 other
unfolding schedule_job reschedule_job moved_to
schedule_job-Known c clock now job other db known =
    elim (Option-cases (calculate_next_run c job now)) [
      | inl e ↦ rw (e, schedule_job) known
      | inr (next, e) ↦
          rw
            (
              e,
              schedule_job,
              count-update-eq (job_has_id other.id) (λ j. j.id == job.id) (moved_to next now)
                  (λ j h. refl) (create_run_for_job clock job now db).0.jobs,
              jobs-create_run clock job now db,
            )
            known
    ]

pub schedule_jobs-Ok :
    (c : Calendar) (clock : ℕ → ℕ) (now : ℕ) (jobs : List Job) (db : Database)
    → All (Known db) jobs
    → Ok db
    → Ok (schedule_jobs c clock now jobs db).0
unfolding schedule_jobs
schedule_jobs-Ok c clock now [] db known ok = ok
schedule_jobs-Ok c clock now (job ∷ jobs) db known ok =
    schedule_jobs-Ok c clock now jobs (schedule_job c clock now job db).0
      (All-map (Known db) (Known (schedule_job c clock now job db).0)
        (λ other h. schedule_job-Known c clock now job other db h) jobs known.1)
      (schedule_job-Ok c clock now job db known.0 ok)

due_jobs-Known :
    (o : OrderBy PriorityText) (locked : ℕ → Bool) (now : ℕ) (db : Database)
    → All (Known db) (due_jobs o locked now db)
unfolding due_jobs
due_jobs-Known o locked now db = All-of_mem (Known db) _ λ job m.
    count_pos_of_Memᴰ (job_has_id job.id) db.jobs job (==-refl job.id)
      (Memᴰ-of_select (is_due locked now) db.jobs job
        ((o.mem-sort job _).0 (Memᴰ-of_take job max_jobs_per_tick _ m))).0

pub tick-Ok :
    (c : Calendar) (o : OrderBy PriorityText) (clock : ℕ → ℕ) (locked : ℕ → Bool) (now : ℕ)
    (db : Database)
    → Ok db
    → Ok (tick c o clock locked now db).0
unfolding tick
tick-Ok c o clock locked now db ok =
    schedule_jobs-Ok c clock now (due_jobs o locked now db) db (due_jobs-Known o locked now db) ok

pub publish_pending_events-Ok :
    (o : OrderBy OldestFirst) (env : OutboxEvent → Delivery) (session : Session) (locked : ℕ → Bool)
    (now : ℕ) (db : Database)
    → Ok db
    → Ok (publish_pending_events o env session locked now db).0
unfolding publish_pending_events
publish_pending_events-Ok o env session locked now db ok =
    if_ind (λ (r : Database × List Message × ℕ). Ok r.0) (not session.connected) _ _ ok
      (if_ind (λ (r : Database × List Message × ℕ). Ok r.0) session.commits _ _ ok ok)
