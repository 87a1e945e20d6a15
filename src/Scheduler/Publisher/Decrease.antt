-- ===== src/Scheduler/Publisher/Decrease.antt =====
-- What a batch of the outbox costs its events.
use job_schedular.Base.{
  ℕ, ◌+◌, ◌-◌, ◌≤◌, ◌<◌, ◌≡◌, refl, sym, subst, ◌∙◌, true, false, Bool, List, [], ◌∷◌, Memᴰ, arith,
  ◌==◌, ==-refl, leb, if◌then◌else◌, Bool-cases, inl, inr, All, All-of_mem, All-of_Memᴰ, length,
}
use mathlib.Core.Option.{some-injective}
use job_schedular.Table.{count, update}
use job_schedular.Table.Counts.{count_pos_of_Memᴰ, count-update-eq}
use job_schedular.Table.Rows.{Memᴰ-update_other, find?_of_unique}
use job_schedular.Models.{OutboxEvent}
use job_schedular.Models.Status.{event_is_pending}
use job_schedular.Scheduler.Publisher.{
  Delivery, max_publish_attempts, publish_event, published_at_now, failed_once, settled_event,
  saved_columns, save_event, publish_batch,
}
use job_schedular.Scheduler.Publisher.Retries.{IsTriable}

-- How often an event may still be tried.
abbrev pub tries_left : OutboxEvent → ℕ
tries_left e = if event_is_pending e.status then max_publish_attempts - e.attempts else 0

unfoldable pub total_tries_left : List OutboxEvent → ℕ
total_tries_left [] = 0
total_tries_left (e ∷ es) = tries_left e + total_tries_left es

abbrev pub event_has_id : ℕ → OutboxEvent → Bool
event_has_id i e = e.id == i

abbrev pub HasUniqueIds : List OutboxEvent → Type 0
HasUniqueIds events = (i : ℕ) → count (λ (e : OutboxEvent). e.id == i) events ≤ 1

module _ (q : OutboxEvent → Bool) (f : OutboxEvent → OutboxEvent) where
  total-update-le :
      (events : List OutboxEvent)
      → ((e : OutboxEvent) → Memᴰ e events → q e ≡ true → tries_left (f e) ≤ tries_left e)
      → total_tries_left (update q f events) ≤ total_tries_left events
  unfolding total_tries_left update
  total-update-le [] h = omega arith
  total-update-le (e ∷ es) h =
      let rest = total-update-le es (λ a m. h a (Memᴰ.tail m)) in
      elim (Bool-cases (q e)) [
        | inl hit ↦ rw hit (omega (arith, rest, h e (Memᴰ.head refl) hit))
        | inr miss ↦ rw miss (omega (arith, rest))
      ]

  total-update-lt :
      (events : List OutboxEvent)
      → ((e : OutboxEvent) → Memᴰ e events → q e ≡ true → tries_left (f e) < tries_left e)
      → (e : OutboxEvent) → Memᴰ e events
      → q e ≡ true
      → total_tries_left (update q f events) < total_tries_left events
  unfolding total_tries_left update
  total-update-lt [] h e m hit = elim m [ ]
  total-update-lt (x ∷ xs) h e (Memᴰ.head same) hit =
      let hit' = subst (λ y. q y ≡ true) same hit in
      rw hit' (
        omega (
          arith,
          h x (Memᴰ.head refl) hit',
          total-update-le xs (λ a m k. omega (arith, h a (Memᴰ.tail m) k)),
        ))
  total-update-lt (x ∷ xs) h e (Memᴰ.tail m) hit =
      let rest = total-update-lt xs (λ a k. h a (Memᴰ.tail k)) e m hit in
      elim (Bool-cases (q x)) [
        | inl hits ↦ rw hits (omega (arith, rest, h x (Memᴰ.head refl) hits))
        | inr misses ↦ rw misses (omega (arith, rest))
      ]

-- Being tried costs the event at least one try.
saved-tries_left :
    (d : Delivery) (e : OutboxEvent)
    → IsTriable e
    → tries_left (saved_columns (publish_event d e).1 (settled_event d e) e) < tries_left e
unfolding saved_columns publish_event settled_event published_at_now failed_once
saved-tries_left d e h = elim (Bool-cases d.accepted) [
  | inl y ↦ rw (y, h.0) (omega (arith, h.1))
  | inr n ↦ rw n (elim (Bool-cases (leb max_publish_attempts (e.attempts + 1))) [
    | inl l ↦ rw (l, h.0) (omega (arith, h.1))
    | inr l ↦ rw l (rw h.0 (omega (arith, h.1)))
  ])
]

settled_id : (d : Delivery) (e : OutboxEvent) → (settled_event d e).id ≡ e.id
unfolding settled_event published_at_now failed_once publish_event
settled_id d e = ground arith

saved_id : (b : Bool) (e row : OutboxEvent) → (saved_columns b e row).id ≡ row.id
unfolding saved_columns
saved_id true e row = refl
saved_id false e row = refl

-- The events of a batch, as they stand in the table.
abbrev pub Found : List OutboxEvent → OutboxEvent → Type 0
Found events e = Memᴰ e events × IsTriable e

module _ (d : Delivery) (e : OutboxEvent) (events : List OutboxEvent) (unique : HasUniqueIds events)
    (found : Found events e) where
  abbrev saved : List OutboxEvent
  saved = save_event (publish_event d e).1 (settled_event d e) events

  saved-lt : total_tries_left saved < total_tries_left events
  unfolding save_event
  saved-lt =
      total-update-lt (λ row. row.id == (settled_event d e).id)
        (saved_columns (publish_event d e).1 (settled_event d e)) events
        (λ row m hit.
          subst
            (λ r.
              tries_left (saved_columns (publish_event d e).1 (settled_event d e) r) < tries_left r)
            (one row m (rw (settled_id d e) at hit)) (saved-tries_left d e found.1))
        e found.0 (rw (settled_id d e) (==-refl e.id))
    where
      one : (row : OutboxEvent) → Memᴰ row events → row.id == e.id ≡ true → e ≡ row
      one row m same = some-injective e row (
          sym (find?_of_unique (λ r. r.id == e.id) events e (unique e.id) found.0 (==-refl e.id))
          ∙ find?_of_unique (λ r. r.id == e.id) events row (unique e.id) m same)

  saved-HasUniqueIds : HasUniqueIds saved
  unfolding save_event
  saved-HasUniqueIds i =
      rw
        (count-update-eq (λ r. r.id == i) (λ row. row.id == (settled_event d e).id)
          (saved_columns (publish_event d e).1 (settled_event d e))
          (λ row hit. rw (saved_id (publish_event d e).1 (settled_event d e) row) refl) events)
        (unique i)

  saved-Found :
      (other : OutboxEvent) → (other.id == e.id) ≡ false → Found events other → Found saved other
  unfolding save_event
  saved-Found other apart f =
      (Memᴰ-update_other _ _ events other f.0 (rw (settled_id d e) apart), f.1)

-- The rest of a batch with unique ids does not have the id of the first.
rest_apart :
    (e other : OutboxEvent) (es : List OutboxEvent)
    → HasUniqueIds (e ∷ es)
    → Memᴰ other es
    → (other.id == e.id) ≡ false
unfolding count
rest_apart e other es unique m = elim (Bool-cases (other.id == e.id)) [
  | inr apart ↦ apart
  | inl same ↦ absurd (
      ground
        (arith, unique e.id, ==-refl e.id, count_pos_of_Memᴰ (event_has_id e.id) es other same m))
]

rest-HasUniqueIds :
    (e : OutboxEvent) (es : List OutboxEvent) → HasUniqueIds (e ∷ es) → HasUniqueIds es
unfolding count
rest-HasUniqueIds e es unique i = ground (arith, unique i)

pub publish_batch_decrease :
    (env : OutboxEvent → Delivery) (es events : List OutboxEvent)
    → HasUniqueIds es
    → HasUniqueIds events
    → All (Found events) es
    → HasUniqueIds (publish_batch env es events).0
      × (length es + total_tries_left (publish_batch env es events).0 ≤ total_tries_left events)
unfolding publish_batch
publish_batch_decrease env [] events batch unique found = (unique, omega arith)
publish_batch_decrease env (e ∷ es) events batch unique found =
    let after = saved-HasUniqueIds (env e) e events unique found.0 in
    let less = saved-lt (env e) e events unique found.0 in
    let rest = publish_batch_decrease env es _ (rest-HasUniqueIds e es batch) after (
      All-of_mem (Found (saved (env e) e events unique found.0)) es λ other m.
        saved-Found (env e) e events unique found.0 other (rest_apart e other es batch m)
          (All-of_Memᴰ (Found events) other es found.1 m)) in
    (rest.0, omega (arith, less, rest.1))
