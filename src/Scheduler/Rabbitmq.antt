-- ===== src/Scheduler/Rabbitmq.antt =====
-- scheduler/rabbitmq.py: the queue of a priority, and the messages that the broker holds.
pub mod Connection
pub mod Session
use job_schedular.Base.{ℕ, List, [], ◌∷◌, String, str_eq, if◌then◌else◌}
use job_schedular.Models.{Payload}

-- `PRIORITY_TO_QUEUE.get(priority, QUEUE_MEDIUM)`.
unfoldable pub get_queue_for_priority : String → String
get_queue_for_priority p =
    if str_eq p "CRITICAL"
    then "jobs_critical"
    else if str_eq p "HIGH"
    then "jobs_high"
    else if str_eq p "MEDIUM"
    then "jobs_medium"
    else if str_eq p "LOW"
    then "jobs_low"
    else "jobs_medium"

abbrev pub all_queues : List String
all_queues = "jobs_critical" ∷ "jobs_high" ∷ "jobs_medium" ∷ "jobs_low" ∷ []

-- What `basic_publish` hands over.
pub record Message : Type 0 where
  pub routing_key : String
  pub body : Payload
  pub message_id : ℕ
