-- ===== src/Worker/Loop.antt =====
-- The loop of worker/main.py: heartbeats, finished futures, the limit on running jobs, claims. The
-- future of an attempt is known by the attempt's id; whether it is done is an argument.
pub mod Limit
use job_schedular.Base.{
  ℕ, suc, ◌+◌, ◌*◌, ◌-◌, Bool, not, ◌&&◌, Option, none, some, List, [], ◌∷◌, String, leb, ◌==◌,
  if◌then◌else◌, length,
}
use job_schedular.Table.{delete, exists, insert}
use job_schedular.OrderBy.{OrderBy}
use job_schedular.Models.{JobAttempt, Database, second}
use job_schedular.Worker.Claim.{EarlierFirst, claim_attempt}
use job_schedular.Worker.Heartbeat.{heartbeat_interval_seconds, send_heartbeat}

pub record Loop : Type 0 where
  pub last_heartbeat : ℕ
  pub running_futures : List ℕ

abbrev pub max_concurrent : ℕ
max_concurrent = 4

-- What the environment answers in one turn. `submits` is whether the executor takes the job.
pub record Turn : Type 0 where
  pub now : ℕ
  pub done : ℕ → Bool
  pub locked : ℕ → Bool
  pub queried : ℕ
  pub claimed_at : ℕ
  pub submits : Bool

-- `running_futures[id] = future`: an id that is there keeps its place.
unfoldable pub add_future : ℕ → List ℕ → List ℕ
add_future id ids = if exists (λ i. i == id) ids then ids else insert id ids

unfoldable pub beat_if_due : String → Turn → Loop × Database → Loop × Database
beat_if_due worker_id t (loop, db) =
    if leb (heartbeat_interval_seconds * second) (t.now - loop.last_heartbeat)
    then (record loop { last_heartbeat = t.now }, (send_heartbeat worker_id t.now db).0)
    else (loop, db)

-- The attempt that was claimed is submitted and tracked; a failure is logged.
unfoldable pub track : Turn → Option JobAttempt → List ℕ → List ℕ
track t none ids = ids
track t (some a) ids = if t.submits then add_future a.id ids else ids

unfoldable pub claim_and_track :
    OrderBy EarlierFirst → String → Turn → Loop × Database → Loop × Database
claim_and_track o worker_id t (loop, db) =
    let (db', claimed) = claim_attempt o t.locked t.queried t.claimed_at worker_id db in
    (record loop { running_futures = track t claimed loop.running_futures }, db')

unfoldable pub clean_up : Turn → Loop → Loop
clean_up t loop = record loop { running_futures = delete t.done loop.running_futures }

-- One turn of `while True`.
unfoldable pub worker_turn :
    OrderBy EarlierFirst → String → Turn → Loop × Database → Loop × Database
worker_turn o worker_id t s =
    let (loop, db) = beat_if_due worker_id t s in
    let cleaned = clean_up t loop in
    if leb max_concurrent (length cleaned.running_futures)
    then (cleaned, db)
    else claim_and_track o worker_id t (cleaned, db)

unfoldable pub worker_run :
    OrderBy EarlierFirst → String → List Turn → Loop × Database → Loop × Database
worker_run o worker_id [] s = s
worker_run o worker_id (t ∷ ts) s = worker_run o worker_id ts (worker_turn o worker_id t s)

-- `last_heartbeat = 0`, no futures.
abbrev pub initial : Loop
initial = record { last_heartbeat = 0; running_futures = [] }
