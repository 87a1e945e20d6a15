-- ===== src/Scheduler/Rabbitmq/Connection.antt =====
-- RabbitMQConnection and setup_queues of scheduler/rabbitmq.py. A connection of pika is known by a
-- number, and a channel by its connection and a number; what pika answers is an argument.
use job_schedular.Base.{
  ℕ, Bool, true, false, Option, none, some, List, [], ◌∷◌, String, if◌then◌else◌,
}
use job_schedular.Scheduler.Rabbitmq.{all_queues}

pub record Channel : Type 0 where
  pub connection : ℕ
  pub number : ℕ

-- `_connection` and `_channel`.
pub record RabbitmqConnection : Type 0 where
  pub connection : Option ℕ
  pub channel : Option Channel

-- `RabbitMQConnection()`.
abbrev pub new_connection : RabbitmqConnection
new_connection = record { connection = none; channel = none }

-- What pika answers to one call: which connections are open and which closed, the connection that
-- `BlockingConnection` makes and the number of the channel that `channel()` opens; `none` if it raises.
pub record Pika : Type 0 where
  pub is_open : ℕ → Bool
  pub is_closed : ℕ → Bool
  pub dial : Option ℕ
  pub opens : Option ℕ

-- A value, or an exception.
pub data PikaResult (A : Type 0) : Type 0 where
  returns : A → PikaResult A
  raises : PikaResult A

unfoldable pub holds_open : Pika → RabbitmqConnection → Bool
holds_open p r = elim r.connection [ none ↦ false | some c ↦ p.is_open c ]

-- `self._channel = self._connection.channel()`, after the assignment of the connection.
unfoldable pub open_channel : Pika → ℕ → RabbitmqConnection → RabbitmqConnection × PikaResult Unit
open_channel p c r = elim p.opens [
  | none ↦ (record r { connection = some c }, raises)
  | some n ↦ (
    record { connection = some c; channel = some (record { connection = c; number = n }) },
    returns tt,
  )
]

unfoldable pub connect : Pika → RabbitmqConnection → RabbitmqConnection × PikaResult Unit
connect p r =
    let dialled : RabbitmqConnection × PikaResult Unit = elim p.dial [
      | none ↦ (r, raises)
      | some c ↦ open_channel p c r
    ] in
    if holds_open p r then (r, returns tt) else dialled

unfoldable pub must_connect : Pika → RabbitmqConnection → Bool
must_connect p r = elim r.connection [ none ↦ true | some c ↦ p.is_closed c ]

-- The channel that is there after `connect`; an exception passes through.
abbrev pub channel_after :
    RabbitmqConnection × PikaResult Unit → RabbitmqConnection × PikaResult (Option Channel)
channel_after (r, raises) = (r, raises)
channel_after (r, returns u) = (r, returns r.channel)

unfoldable pub get_channel :
    Pika → RabbitmqConnection → RabbitmqConnection × PikaResult (Option Channel)
get_channel p r = if must_connect p r then channel_after (connect p r) else (r, returns r.channel)

-- The connection that `close` closes; its exceptions are swallowed.
unfoldable pub close : Pika → RabbitmqConnection → Option ℕ
close p r = if holds_open p r then r.connection else none

-- The queues that are declared, up to the first that the broker refuses.
unfoldable pub declare_all : (String → Bool) → List String → List String × PikaResult Unit
declare_all accepts [] = ([], returns tt)
declare_all accepts (q ∷ qs) =
    let (declared, outcome) = declare_all accepts qs in
    if accepts q then (q ∷ declared, outcome) else ([], raises)

unfoldable pub setup_queues : (String → Bool) → List String × PikaResult Unit
setup_queues accepts = declare_all accepts all_queues

-- The start of `publish_pending_events`: a new object, its connection and channel, and the queues.
unfoldable pub open_session : Pika → (String → Bool) → Option Channel × List String × Bool
open_session p accepts =
    let (r, connected) = connect p new_connection in
    let (r', channel) = get_channel p r in
    let (declared, outcome) = setup_queues accepts in
    elim connected [
      | raises ↦ (none, [], false)
      | returns u ↦ elim channel [
        | raises ↦ (none, [], false)
        | returns ch ↦ elim outcome [
          | raises ↦ (ch, declared, false)
          | returns u ↦ (ch, declared, true)
        ]
      ]
    ]
