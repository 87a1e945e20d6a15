-- ===== src/Worker/Claim.antt =====
-- worker/claim.py: a worker takes one QUEUED attempt. Two readings of the clock are arguments, as
-- are the rows that other transactions hold locked (SKIP LOCKED) and the database's sort.
pub mod Laws
pub mod Progress
use job_schedular.Base.{
  ℕ, ◌+◌, ◌*◌, ◌≤◌, Bool, not, ◌&&◌, Option, none, some, List, [], ◌∷◌, String, leb, ◌==◌, str_eq,
  if◌then◌else◌, head?, take,
}
use job_schedular.Table.{select, count, find?, update}
use job_schedular.OrderBy.{OrderBy}
use job_schedular.OrderBy.Insertion.{sort_by}
use job_schedular.Models.{JobAttempt, Database, second}
use job_schedular.Models.Status.{AttemptStatus, attempt_is_queued}

abbrev pub lease_duration_seconds : ℕ
lease_duration_seconds = 45

abbrev pub candidate_limit : ℕ
candidate_limit = 50

-- `PRIORITY_ORDER.get(priority, 0)`: a higher number is a higher priority.
unfoldable pub priority_order : String → ℕ
priority_order s =
    if str_eq s "CRITICAL"
    then 4
    else if str_eq s "HIGH"
    then 3
    else if str_eq s "MEDIUM"
    then 2
    else if str_eq s "LOW"
    then 1
    else 0

-- The relation of `order_by("scheduled_for")`.
abbrev pub EarlierFirst : JobAttempt → JobAttempt → Type 0
EarlierFirst a b = a.scheduled_for ≤ b.scheduled_for

-- The filter of the claim query, on the rows that are not locked.
abbrev pub is_claimable : (ℕ → Bool) → ℕ → JobAttempt → Bool
is_claimable locked queried a =
    not (locked a.id) && (attempt_is_queued a.status && leb a.scheduled_for queried)

unfoldable pub candidates : OrderBy EarlierFirst → (ℕ → Bool) → ℕ → Database → List JobAttempt
candidates o locked queried db =
    take candidate_limit (o.sort (select (is_claimable locked queried) db.attempts))

-- `candidates.sort(key=..., reverse=True)`: descending, and stable.
abbrev pub by_priority : JobAttempt → JobAttempt → Bool
by_priority a b = leb (priority_order b.priority) (priority_order a.priority)

-- `filter(id=attempt.id, status=QUEUED)`.
abbrev pub is_still_queued : ℕ → JobAttempt → Bool
is_still_queued id a = a.id == id && attempt_is_queued a.status

-- The columns that the claim writes; the token is computed from the row as it was read.
unfoldable pub claimed_by : String → ℕ → ℕ → JobAttempt → JobAttempt
claimed_by worker_id now token a = record a {
  status = AttemptStatus.running;
  worker_id = some worker_id;
  fencing_token = token + 1;
  lease_expires_at = some (now + lease_duration_seconds * second);
  started_at = some now;
}

-- The UPDATE and `refresh_from_db`, on the row that was chosen.
unfoldable pub claim_row : String → ℕ → Option JobAttempt → Database → Database × Option JobAttempt
claim_row worker_id now none db = (db, none)
claim_row worker_id now (some attempt) db =
    let guard = is_still_queued attempt.id in
    let rows = update guard (claimed_by worker_id now attempt.fencing_token) db.attempts in
    if count guard db.attempts == 0
    then (db, none)
    else (record db { attempts = rows }, find? (λ a. a.id == attempt.id) rows)

unfoldable pub claim_attempt :
    OrderBy EarlierFirst → (ℕ → Bool) → ℕ → ℕ → String → Database → Database × Option JobAttempt
claim_attempt o locked queried now worker_id db =
    claim_row worker_id now (head? (sort_by by_priority (candidates o locked queried db))) db
