-- ===== src/Scheduler/Rabbitmq/Session.antt =====
-- What a connection object gives to the publisher.
use job_schedular.Base.{
  ℕ, ◌≡◌, refl, ap, subst, Bool, true, false, Option, none, some, List, [], ◌∷◌, String, Memᴰ,
  arith, str_eq, Bool-cases, Option-cases, inl, inr,
}
use job_schedular.Scheduler.Rabbitmq.{all_queues, get_queue_for_priority}
use job_schedular.Scheduler.Rabbitmq.Connection.{
  Channel, RabbitmqConnection, Pika, returns, raises, holds_open, open_channel, connect,
  must_connect, get_channel, declare_all, setup_queues, open_session,
}

-- The queue of any text is one of the four.
get_queue_for_priority-mem : (p : String) → Memᴰ (get_queue_for_priority p) all_queues
unfolding get_queue_for_priority
get_queue_for_priority-mem p = elim (Bool-cases (str_eq p "CRITICAL")) [
  | inl e ↦ rw e (Memᴰ.head refl)
  | inr e ↦ rw e (elim (Bool-cases (str_eq p "HIGH")) [
    | inl e ↦ rw e (Memᴰ.tail (Memᴰ.head refl))
    | inr e ↦ rw e (elim (Bool-cases (str_eq p "MEDIUM")) [
      | inl e ↦ rw e medium
      | inr e ↦ rw e (elim (Bool-cases (str_eq p "LOW")) [
        | inl e ↦ rw e (Memᴰ.tail (Memᴰ.tail (Memᴰ.tail (Memᴰ.head refl))))
        | inr e ↦ rw e medium
      ])
    ])
  ])
]
  where
    medium : Memᴰ "jobs_medium" all_queues
    medium = Memᴰ.tail (Memᴰ.tail (Memᴰ.head refl))

declare_all-eq :
    (accepts : String → Bool) (qs : List String) (u : Unit)
    → (declare_all accepts qs).1 ≡ returns u
    → (declare_all accepts qs).0 ≡ qs
unfolding declare_all
declare_all-eq accepts [] u h = refl
declare_all-eq accepts (q ∷ qs) u h = elim (Bool-cases (accepts q)) [
  | inl e ↦ rw e (ap (◌∷◌ q) (declare_all-eq accepts qs u (rw e at h)))
  | inr e ↦ absurd (ground (arith, e, h))
]

-- A session of the publisher that is ready has a channel on the connection that was made, and the queue
-- of every priority, known or not, is declared.
open_session-ready :
    (p : Pika) (accepts : String → Bool) (channel : Option Channel) (declared : List String)
    → open_session p accepts ≡ (channel, declared, true)
    → ((ch : Channel) × (channel ≡ some ch) × (p.dial ≡ some ch.connection))
      × ((priority : String) → Memᴰ (get_queue_for_priority priority) declared)
unfolding open_session connect open_channel get_channel must_connect holds_open setup_queues
open_session-ready p accepts channel declared h = elim (Option-cases p.dial) [
  | inl e ↦ absurd (ground (arith, e, h))
  | inr (c, dialled) ↦ elim (Option-cases p.opens) [
    | inl e ↦ absurd (ground (arith, dialled, e, h))
    | inr (n, opened) ↦ (
      (
        record { connection = c; number = n },
        ground (arith, dialled, opened, h),
        ground (arith, dialled),
      ),
      λ priority.
          subst (Memᴰ (get_queue_for_priority priority))
            (ground (arith, dialled, opened, h, declare_all-eq accepts all_queues tt))
            (get_queue_for_priority-mem priority),
    )
  ]
]

-- If opening the channel of a new connection raises, the object keeps the new connection with the
-- channel of the old one: `get_channel` then returns that old channel, with no exception and no attempt
-- to open another.
get_channel_stale :
    (p q : Pika) (old new : ℕ) (ch : Channel)
    → p.is_open old ≡ false
    → p.dial ≡ some new
    → p.opens ≡ none
    → q.is_closed new ≡ false
    → let r : RabbitmqConnection = record { connection = some old; channel = some ch } in
      let (after, connected) = connect p r in
      (connected ≡ raises) × ((get_channel q after).1 ≡ returns (some ch))
unfolding connect open_channel get_channel must_connect holds_open
get_channel_stale p q old new ch closed dialled refused alive = ground arith
