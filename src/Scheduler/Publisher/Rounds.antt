-- ===== src/Scheduler/Publisher/Rounds.antt =====
-- Why the retries of the outbox come to an end.
use job_schedular.Base.{
  ℕ, ◌+◌, ◌*◌, ◌≤◌, Bool, List, [], ◌∷◌, arith, ◌&&◌, if◌then◌else◌, Bool-cases, inl, inr, All,
  All-of_mem, All-of_Memᴰ, Memᴰ-of_take, length,
}
use job_schedular.Table.{select}
use job_schedular.Table.Counts.{count-take-le, count-select-le}
use job_schedular.Table.Rows.{Memᴰ-of_select}
use job_schedular.OrderBy.{OrderBy}
use job_schedular.Models.{OutboxEvent, Database}
use job_schedular.Scheduler.Publisher.{
  Delivery, Session, OldestFirst, max_publish_attempts, batch_size, is_ready, pending_events,
  publish_pending_events,
}
use job_schedular.Scheduler.Publisher.Retries.{
  IsAccounted, IsTriable, pending-IsTriable, publish_pending_events-IsAccounted,
}
use job_schedular.Scheduler.Publisher.Decrease.{
  total_tries_left, HasUniqueIds, event_has_id, Found, publish_batch_decrease,
}

pending-HasUniqueIds :
    (o : OrderBy OldestFirst) (locked : ℕ → Bool) (now : ℕ) (events : List OutboxEvent)
    → HasUniqueIds events
    → HasUniqueIds (pending_events o locked now events)
unfolding pending_events
pending-HasUniqueIds o locked now events unique i = omega (
  arith,
  unique i,
  count-select-le (event_has_id i) (is_ready locked now) events,
  o.count-sort (event_has_id i) (select (is_ready locked now) events),
  count-take-le (event_has_id i) batch_size (o.sort (select (is_ready locked now) events)),
)

pending-Found :
    (o : OrderBy OldestFirst) (locked : ℕ → Bool) (now : ℕ) (events : List OutboxEvent)
    → All IsAccounted events
    → All (Found events) (pending_events o locked now events)
unfolding pending_events
pending-Found o locked now events all = All-of_mem (Found events) _ λ e m. (
  (Memᴰ-of_select (is_ready locked now) events e
      ((o.mem-sort e _).0 (Memᴰ-of_take e batch_size _ m))).0,
  All-of_Memᴰ IsTriable e _ (pending-IsTriable o locked now events all) m,
)

-- What the environment does in one pass.
pub record Round : Type 0 where
  pub env : OutboxEvent → Delivery
  pub session : Session
  pub locked : ℕ → Bool
  pub now : ℕ

-- The events that a pass tries and settles: those of its batch, if the transaction commits.
abbrev pub settled : OrderBy OldestFirst → Round → Database → ℕ
settled o r db =
    if r.session.connected && r.session.commits
    then length (pending_events o r.locked r.now db.events)
    else 0

-- Passes in a row, with the number of tries that were settled.
unfoldable pub run_rounds : OrderBy OldestFirst → List Round → Database → Database × ℕ
run_rounds o [] db = (db, 0)
run_rounds o (r ∷ rs) db =
    let (after, n) =
      run_rounds o rs (publish_pending_events o r.env r.session r.locked r.now db).0 in
    (after, settled o r db + n)

module _ (o : OrderBy OldestFirst) (r : Round) (db : Database) (unique : HasUniqueIds db.events)
    (all : All IsAccounted db.events) where
  abbrev after_round : Database
  after_round = (publish_pending_events o r.env r.session r.locked r.now db).0

  round_decrease :
      HasUniqueIds after_round.events
      × (settled o r db + total_tries_left after_round.events ≤ total_tries_left db.events)
  unfolding publish_pending_events
  round_decrease = elim (Bool-cases r.session.connected) [
    | inr down ↦ rw down (unique, omega arith)
    | inl up ↦ elim (Bool-cases r.session.commits) [
      | inr lost ↦ rw (up, lost) (unique, omega arith)
      | inl kept ↦
          rw (up, kept)
            (publish_batch_decrease r.env (pending_events o r.locked r.now db.events) db.events
              (pending-HasUniqueIds o r.locked r.now db.events unique) unique
              (pending-Found o r.locked r.now db.events all))
    ]
  ]

total_tries_left_le :
    (events : List OutboxEvent) → total_tries_left events ≤ max_publish_attempts * length events
unfolding total_tries_left
total_tries_left_le [] = omega arith
total_tries_left_le (e ∷ es) = ground (arith, total_tries_left_le es)

-- The retries come to an end: if the ids of the events are unique and their accounts right, then however
-- many passes follow one another, the tries that they settle and those that are left after them are no
-- more than those that were left before, which are at most ten for each event.
pub run_rounds_decrease :
    (o : OrderBy OldestFirst) (rounds : List Round) (db : Database)
    → HasUniqueIds db.events
    → All IsAccounted db.events
    → let (after, tried) = run_rounds o rounds db in
      (tried + total_tries_left after.events ≤ total_tries_left db.events)
      × (total_tries_left db.events ≤ max_publish_attempts * length db.events)
unfolding run_rounds
run_rounds_decrease o [] db unique all = (omega arith, total_tries_left_le db.events)
run_rounds_decrease o (r ∷ rs) db unique all =
    let first = round_decrease o r db unique all in
    let rest =
      run_rounds_decrease o rs (after_round o r db unique all) first.0
        (publish_pending_events-IsAccounted o r.env r.session r.locked r.now db all) in
    (omega (arith, first.1, rest.0), total_tries_left_le db.events)
