-- ===== src/Scheduler/Publisher.antt =====
-- scheduler/publisher.py: pending outbox events are sent to RabbitMQ.
pub mod Events
pub mod Retries
pub mod Decrease
pub mod Rounds
use job_schedular.Base.{
  ℕ, suc, ◌+◌, ◌*◌, ◌^◌, ◌≤◌, min, Bool, true, false, not, ◌&&◌, Option, none, some, List, [], ◌∷◌,
  ◌++◌, String, leb, ◌==◌, if◌then◌else◌, take,
}
use job_schedular.Table.{select, update}
use job_schedular.OrderBy.{OrderBy}
use job_schedular.Models.{OutboxEvent, Payload, Database, second}
use job_schedular.Models.Status.{EventStatus, event_is_pending}
use job_schedular.Scheduler.Rabbitmq.{Message, get_queue_for_priority}

abbrev pub batch_size : ℕ
batch_size = 50

abbrev pub max_publish_attempts : ℕ
max_publish_attempts = 10

abbrev pub backoff_base_seconds : ℕ
backoff_base_seconds = 1

-- The delay in microseconds, and on top of it the jitter that random.uniform gave.
unfoldable pub backoff_delay : ℕ → ℕ
backoff_delay attempt = backoff_base_seconds * 2 ^ min attempt 10 * second

unfoldable pub calculate_backoff : ℕ → ℕ → ℕ
unfolding backoff_delay
calculate_backoff attempt jitter = backoff_delay attempt + jitter

-- What the environment does with one event: whether `basic_publish` raises, the reading of the
-- clock behind it, and the jitter, if one is drawn.
pub record Delivery : Type 0 where
  pub accepted : Bool
  pub now : ℕ
  pub jitter : ℕ

-- `event.payload.get("priority", "MEDIUM")`.
abbrev pub payload_priority : Payload → String
payload_priority p = elim p.priority [ none ↦ "MEDIUM" | some s ↦ s ]

unfoldable pub message_of : OutboxEvent → Message
message_of e = record {
  routing_key = get_queue_for_priority (payload_priority e.payload);
  body = e.payload;
  message_id = e.id;
}

-- The messages that one call of `publish_event` adds to the broker, and its result.
unfoldable pub publish_event : Delivery → OutboxEvent → List Message × Bool
publish_event d e = if d.accepted then (message_of e ∷ [], true) else ([], false)

unfoldable pub published_at_now : ℕ → OutboxEvent → OutboxEvent
published_at_now now e = record e { status = EventStatus.published; published_at = some now }

unfoldable pub failed_once : Delivery → OutboxEvent → OutboxEvent
failed_once d e =
    let attempts = e.attempts + 1 in
    let e' = record e { attempts = attempts } in
    if leb max_publish_attempts attempts
    then record e' { status = EventStatus.failed }
    else record e' { next_attempt_at = d.now + calculate_backoff attempts d.jitter }

-- The event as the loop saves it.
unfoldable pub settled_event : Delivery → OutboxEvent → OutboxEvent
settled_event d e = if (publish_event d e).1 then published_at_now d.now e else failed_once d e

-- `event.save(update_fields=...)`: the columns that are written after a success, and after a failure.
unfoldable pub saved_columns : Bool → OutboxEvent → OutboxEvent → OutboxEvent
saved_columns true e row = record row { status = e.status; published_at = e.published_at }
saved_columns false e row = record row {
  status = e.status;
  attempts = e.attempts;
  next_attempt_at = e.next_attempt_at;
}

unfoldable pub save_event : Bool → OutboxEvent → List OutboxEvent → List OutboxEvent
save_event success e events = update (λ row. row.id == e.id) (saved_columns success e) events

-- The loop over the batch: the rows, the messages sent, and the number published.
unfoldable pub publish_batch :
    (OutboxEvent → Delivery)
    → List OutboxEvent
    → List OutboxEvent
    → List OutboxEvent × List Message × ℕ
publish_batch env [] events = (events, [], 0)
publish_batch env (e ∷ es) events =
    let (sent, success) = publish_event (env e) e in
    let (events', rest, n) =
      publish_batch env es (save_event success (settled_event (env e) e) events) in
    (events', sent ++ rest, (if success then 1 else 0) + n)

-- The relation of `order_by("created_at")`.
abbrev pub OldestFirst : OutboxEvent → OutboxEvent → Type 0
OldestFirst a b = a.created_at ≤ b.created_at

abbrev pub is_ready : (ℕ → Bool) → ℕ → OutboxEvent → Bool
is_ready locked now e =
    not (locked e.id) && (event_is_pending e.status && leb e.next_attempt_at now)

unfoldable pub pending_events :
    OrderBy OldestFirst → (ℕ → Bool) → ℕ → List OutboxEvent → List OutboxEvent
pending_events o locked now events = take batch_size (o.sort (select (is_ready locked now) events))

-- What happens around the batch: whether the connection comes up, and whether the transaction
-- commits. Without a commit the rows stay as they were, and the messages are sent all the same.
pub record Session : Type 0 where
  pub connected : Bool
  pub commits : Bool

unfoldable pub publish_pending_events :
    OrderBy OldestFirst
    → (OutboxEvent → Delivery)
    → Session
    → (ℕ → Bool)
    → ℕ
    → Database
    → Database × List Message × ℕ
publish_pending_events o env s locked now db =
    let (events, sent, n) = publish_batch env (pending_events o locked now db.events) db.events in
    if not s.connected
    then (db, [], 0)
    else if s.commits
    then (record db { events = events }, sent, n)
    else (db, sent, n)
