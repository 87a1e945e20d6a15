-- ===== src/Scheduler/Publisher/Events.antt =====
-- What the publisher sends, and what it leaves in the outbox.
use job_schedular.Base.{
  ℕ, suc, ◌≤◌, ◌≡◌, refl, ap, Bool, List, [], ◌∷◌, arith, if◌then◌else◌, Bool-cases, inl, inr,
  length, length-take-le, take, map,
}
use job_schedular.Table.{select}
use job_schedular.OrderBy.{OrderBy}
use job_schedular.Models.{OutboxEvent, Database}
use job_schedular.Scheduler.Rabbitmq.{Message}
use job_schedular.Scheduler.Publisher.{
  is_ready, Delivery, Session, OldestFirst, batch_size, message_of, publish_event, publish_batch,
  pending_events, publish_pending_events,
}

-- The messages for the events of a batch that the broker takes, in the order of the batch.
abbrev accepted_messages : (OutboxEvent → Delivery) → List OutboxEvent → List Message
accepted_messages env es = map message_of (select (λ e. (env e).accepted) es)

publish_batch_sent :
    (env : OutboxEvent → Delivery) (es events : List OutboxEvent)
    → ((publish_batch env es events).1 ≡ accepted_messages env es)
      × ((publish_batch env es events).2 ≡ length (accepted_messages env es))
unfolding publish_batch publish_event select
publish_batch_sent env [] events = (refl, refl)
publish_batch_sent env (v ∷ es) events = elim (Bool-cases (env v).accepted) [
  | inl e ↦ rw e (
      let rest = publish_batch_sent env es _ in
      (ap (◌∷◌ (message_of v)) rest.0, omega (arith, rest.1)))
  | inr e ↦ rw e (let rest = publish_batch_sent env es _ in (rest.0, omega (arith, rest.1)))
]

length-select-le : {A : Type 0} (p : A → Bool) (xs : List A) → length (select p xs) ≤ length xs
unfolding select
length-select-le p [] = omega arith
length-select-le p (x ∷ xs) = ground (arith, length-select-le p xs)

length-map : {A B : Type 0} (f : A → B) (xs : List A) → length (map f xs) ≡ length xs
length-map f [] = refl
length-map f (x ∷ xs) = ap suc (length-map f xs)

-- One pass of the publisher sends, in the order of its batch, exactly the messages of the batch's
-- events that the broker takes, whether or not the commit succeeds, and nothing without a connection;
-- the number it returns is that of the messages, at most 50.
pub publish_pending_events_sent :
    (o : OrderBy OldestFirst) (env : OutboxEvent → Delivery) (s : Session) (locked : ℕ → Bool)
    (now : ℕ) (db : Database)
    → let (after, sent, n) = publish_pending_events o env s locked now db in
      (sent ≡ (
        if s.connected
        then map message_of (select (λ e. (env e).accepted) (pending_events o locked now db.events))
        else []))
      × (n ≡ length sent)
      × (n ≤ batch_size)
unfolding publish_pending_events pending_events
publish_pending_events_sent o env s locked now db = ground (arith, sent.0, sent.1, few)
  where
    batch : List OutboxEvent
    batch = take batch_size (o.sort (select (is_ready locked now) db.events))

    sent :
        ((publish_batch env batch db.events).1 ≡ accepted_messages env batch)
        × ((publish_batch env batch db.events).2 ≡ length (accepted_messages env batch))
    sent = publish_batch_sent env batch db.events

    few : length (accepted_messages env batch) ≤ batch_size
    few = omega (
      arith,
      length-map message_of (select (λ e. (env e).accepted) batch),
      length-select-le (λ e. (env e).accepted) batch,
      length-take-le batch_size (o.sort (select (is_ready locked now) db.events)),
    )
