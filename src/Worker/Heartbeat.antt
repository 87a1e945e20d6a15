-- ===== src/Worker/Heartbeat.antt =====
-- worker/heartbeat.py: registration, heartbeats and leases.
pub mod Leases
use job_schedular.Base.{
  ℕ, ◌+◌, ◌*◌, Bool, true, false, ◌&&◌, Option, none, some, List, String, ltb, str_eq,
  if◌then◌else◌,
}
use job_schedular.Table.{select, count, exists, update, insert}
use job_schedular.Models.{JobAttempt, Worker, Database, second}
use job_schedular.Models.Status.{WorkerStatus, attempt_is_running}
use job_schedular.Worker.Claim.{lease_duration_seconds}

abbrev pub heartbeat_interval_seconds : ℕ
heartbeat_interval_seconds = 15

-- A NULL column meets no comparison.
abbrev pub lease_gt : ℕ → Option ℕ → Bool
lease_gt now none = false
lease_gt now (some t) = ltb now t

abbrev pub lease_lt : ℕ → Option ℕ → Bool
lease_lt now none = false
lease_lt now (some t) = ltb t now

abbrev pub held_by : String → Option String → Bool
held_by worker_id none = false
held_by worker_id (some w) = str_eq w worker_id

-- `update_or_create`; `created_at` is the reading of the clock for the column defaults.
unfoldable pub register_worker : String → String → ℕ → ℕ → Database → Database × Bool
register_worker worker_id hostname now created_at db =
    if exists (λ w. str_eq w.id worker_id) db.workers
    then (record db { workers = update (λ w. str_eq w.id worker_id) refresh db.workers }, false)
    else (record db { workers = insert fresh db.workers }, true)
  where
    refresh : Worker → Worker
    refresh w = record w {
      hostname = hostname;
      status = WorkerStatus.active;
      last_heartbeat_at = now;
    }

    fresh : Worker
    fresh = record {
      id = worker_id;
      hostname = hostname;
      status = WorkerStatus.active;
      started_at = created_at;
      last_heartbeat_at = now;
      created_at = created_at;
    }

pub record HeartbeatResult : Type 0 where
  pub worker_updated : Bool
  pub leases_extended : ℕ

-- The attempts whose lease a heartbeat extends.
abbrev pub is_extendable : String → ℕ → JobAttempt → Bool
is_extendable worker_id now a =
    held_by worker_id a.worker_id
    && (attempt_is_running a.status && lease_gt now a.lease_expires_at)

unfoldable pub extended_to : ℕ → JobAttempt → JobAttempt
extended_to now a = record a { lease_expires_at = some (now + lease_duration_seconds * second) }

unfoldable pub send_heartbeat : String → ℕ → Database → Database × HeartbeatResult
send_heartbeat worker_id now db = (
  record db {
    workers = update (λ w. str_eq w.id worker_id) beat db.workers;
    attempts = update (is_extendable worker_id now) (extended_to now) db.attempts;
  },
  record {
    worker_updated = ltb 0 (count (λ w. str_eq w.id worker_id) db.workers);
    leases_extended = count (is_extendable worker_id now) db.attempts;
  },
)
  where
    beat : Worker → Worker
    beat w = record w { last_heartbeat_at = now; status = WorkerStatus.active }

unfoldable pub find_expired_leases : ℕ → Database → List JobAttempt
find_expired_leases now db =
    select (λ a. attempt_is_running a.status && lease_lt now a.lease_expires_at) db.attempts

unfoldable pub mark_worker_dead : String → Database → Database
mark_worker_dead worker_id db = record db {
  workers = update (λ w. str_eq w.id worker_id) dead db.workers;
}
  where
    dead : Worker → Worker
    dead w = record w { status = WorkerStatus.dead }
