-- ===== src/Scheduler/Publisher/Retries.antt =====
-- The retries of the outbox: how often an event is tried, and when it is given up.
use job_schedular.Base.{
  ℕ, ◌+◌, ◌<◌, ◌≡◌, refl, Bool, true, false, not, Option, none, some, List, [], ◌∷◌, Memᴰ, arith,
  ltb, leb, ◌==◌, if_ind, Bool-cases, inl, inr, take, All, All-of_mem, All-of_Memᴰ, Memᴰ-of_take,
}
use job_schedular.Table.{select}
use job_schedular.Table.Rows.{All-update, Memᴰ-of_select}
use job_schedular.OrderBy.{OrderBy}
use job_schedular.Models.{OutboxEvent, Database}
use job_schedular.Models.Status.{EventStatus, event_is_pending}
use job_schedular.Scheduler.Rabbitmq.{Message}
use job_schedular.Scheduler.Publisher.{
  Delivery, Session, OldestFirst, batch_size, max_publish_attempts, publish_event, published_at_now,
  failed_once, settled_event, saved_columns, save_event, publish_batch, is_ready, pending_events,
  publish_pending_events,
}

abbrev is_dated : Option ℕ → Bool
is_dated none = false
is_dated (some t) = true

-- A PENDING event has failed less than ten times, a FAILED one exactly ten times, and a PUBLISHED one
-- has the time at which it was published.
abbrev pub is_accounted : EventStatus → ℕ → Option ℕ → Bool
is_accounted EventStatus.pending attempts published_at = ltb attempts max_publish_attempts
is_accounted EventStatus.published attempts published_at = is_dated published_at
is_accounted EventStatus.failed attempts published_at = attempts == max_publish_attempts

abbrev pub IsAccounted : OutboxEvent → Type 0
IsAccounted e = is_accounted e.status e.attempts e.published_at ≡ true

abbrev pub IsTriable : OutboxEvent → Type 0
IsTriable e = (event_is_pending e.status ≡ true) × (e.attempts < max_publish_attempts)

saved-IsAccounted :
    (d : Delivery) (e row : OutboxEvent)
    → IsTriable e
    → IsAccounted (saved_columns (publish_event d e).1 (settled_event d e) row)
unfolding saved_columns publish_event settled_event published_at_now failed_once
saved-IsAccounted d e row h = elim (Bool-cases d.accepted) [
  | inl y ↦ rw y refl
  | inr n ↦ rw n (elim (Bool-cases (leb max_publish_attempts (e.attempts + 1))) [
    | inl l ↦ rw l (ground arith)
    | inr l ↦ rw l (ground arith)
  ])
]

pub publish_batch-IsAccounted :
    (env : OutboxEvent → Delivery) (es events : List OutboxEvent)
    → All IsTriable es
    → All IsAccounted events
    → All IsAccounted (publish_batch env es events).0
unfolding publish_batch save_event
publish_batch-IsAccounted env [] events triable all = all
publish_batch-IsAccounted env (e ∷ es) events triable all =
    publish_batch-IsAccounted env es _ triable.1 (
      All-update IsAccounted (λ row. row.id == (settled_event (env e) e).id)
        (saved_columns (publish_event (env e) e).1 (settled_event (env e) e))
        (λ row h m. saved-IsAccounted (env e) e row triable.0) events all)

pub pending-IsTriable :
    (o : OrderBy OldestFirst) (locked : ℕ → Bool) (now : ℕ) (events : List OutboxEvent)
    → All IsAccounted events
    → All IsTriable (pending_events o locked now events)
unfolding pending_events
pending-IsTriable o locked now events all = All-of_mem IsTriable _ triable
  where
    triable :
        (e : OutboxEvent)
        → Memᴰ e (take batch_size (o.sort (select (is_ready locked now) events)))
        → IsTriable e
    triable e m =
        let found =
          Memᴰ-of_select (is_ready locked now) events e
            ((o.mem-sort e _).0 (Memᴰ-of_take e batch_size _ m)) in
        from_pending (All-of_Memᴰ IsAccounted e events all found.0) found.1
      where
        from_pending : IsAccounted e → is_ready locked now e ≡ true → IsTriable e
        from_pending ok ready = ground arith

-- A pass of the publisher keeps the account of every event: if each PENDING event has failed less than
-- ten times, each FAILED one exactly ten times and each PUBLISHED one has its time, then this holds
-- after the pass, whatever the broker does, and whether or not the commit succeeds.
pub publish_pending_events-IsAccounted :
    (o : OrderBy OldestFirst) (env : OutboxEvent → Delivery) (s : Session) (locked : ℕ → Bool)
    (now : ℕ) (db : Database)
    → All IsAccounted db.events
    → All IsAccounted (publish_pending_events o env s locked now db).0.events
unfolding publish_pending_events
publish_pending_events-IsAccounted o env s locked now db all =
    if_ind (λ (r : Database × List Message × ℕ). All IsAccounted r.0.events) (not s.connected) _ _
      all
      (if_ind (λ (r : Database × List Message × ℕ). All IsAccounted r.0.events) s.commits _ _
        (publish_batch-IsAccounted env _ db.events (pending-IsTriable o locked now db.events all)
          all)
        all)
