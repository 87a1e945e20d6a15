-- ===== src/Scheduler/Watchdog/Transaction.antt =====
-- The transaction of `_handle_expired_attempt` (scheduler/watchdog.py) apart: the row is read without a lock,
-- the attempts of its run are counted by a later statement, and what is written is seen by others at the commit.
-- Other transactions may commit between these.
use job_schedular.Base.{
  ℕ, suc, ◌+◌, Bool, false, not, ◌&&◌, Option, none, some, ltb, leb, ◌==◌, if◌then◌else◌,
}
use job_schedular.Table.{exists, update, insert}
use job_schedular.Models.{Job, JobAttempt, Database, new_attempt}
use job_schedular.Models.Status.{attempt_is_running}
use job_schedular.Scheduler.Watchdog.{timed_out_at}

-- A transaction that has read its row, and may have counted.
pub record Expiring : Type 0 where
  pub row : JobAttempt
  pub total_attempts : Option ℕ

abbrev pub is_lease_over : ℕ → Option ℕ → Bool
is_lease_over now none = false
is_lease_over now (some lease) = not (leb now lease)

-- The two early returns are passed. A row without a lease raises, and nothing is written.
abbrev pub is_to_expire : ℕ → JobAttempt → Bool
is_to_expire now row = attempt_is_running row.status && is_lease_over now row.lease_expires_at

-- The update is by the id alone, whatever the row has become.
abbrev pub timed_out_in : JobAttempt → ℕ → Database → Database
timed_out_in row now db = record db {
  attempts = update (λ a. a.id == row.id) (timed_out_at now) db.attempts;
}

abbrev pub retried_in : (ℕ → ℕ) → JobAttempt → ℕ → Job → ℕ → Database → Database
retried_in clock row total job now db = record db {
  attempts =
      insert
        (new_attempt db.next_id row.job_run_id job.id (total + 1) job.priority now
          (clock db.next_id))
        db.attempts;
  next_id = suc db.next_id;
}

-- The commit, with the number counted and the job read before. If the foreign keys of the retry do not hold, the
-- transaction is rolled back.
unfoldable pub commit_expiry : (ℕ → ℕ) → JobAttempt → ℕ → Job → ℕ → Database → Database
commit_expiry clock row total job now db =
    if ltb total job.retry_limit
    then (if exists (λ r. r.id == row.job_run_id) db.runs && exists (λ j. j.id == job.id) db.jobs
        then retried_in clock row total job now (timed_out_in row now db)
        else db)
    else timed_out_in row now db
