-- ===== src/Lib.antt =====
-- A job scheduler: a Django API and dashboard, a scheduler process and any number of worker processes,
-- which work on one PostgreSQL database, with Redis behind two middlewares of the API and RabbitMQ
-- behind the scheduler.
--
-- A job (apps/jobs/models.py) is due at its `next_run_at`. The scheduler's tick creates a run of it,
-- the run's first attempt (apps/executions/models.py) and an outbox event, which the publisher sends to
-- RabbitMQ. A worker claims a QUEUED attempt under a lease, executes the job's handler and writes the
-- result, unless a fencing token says that the claim is not its own any more. The watchdog times out
-- attempts whose lease has expired, queues retries, closes runs and marks silent workers dead. The API
-- creates, changes, triggers and deletes jobs, and operators reset stuck runs and clean up old ones.
--
-- Files, with the code that they model:
--   Models, Models/Status: apps/jobs/models.py, apps/executions/models.py. The tables are lists of
--     records in a `Database`; Table has the queryset methods that the code calls, and OrderBy the sorts.
--   Worker/Claim: worker/claim.py. Worker/Heartbeat: worker/heartbeat.py. Worker/Executor:
--     worker/executor.py and apps/jobs/handlers.py. Worker/Main: handle_attempt_completion and
--     _update_run_status of worker/main.py, and what its main does with a claim. Worker/Loop: the
--     loop of its main. Worker/Process: main with its registration and shutdown.
--   Scheduler/Tick: scheduler/tick.py. Scheduler/Publisher: scheduler/publisher.py. Scheduler/Rabbitmq:
--     scheduler/rabbitmq.py, with the connection object in Scheduler/Rabbitmq/Connection.
--     Scheduler/Watchdog: scheduler/watchdog.py. Scheduler/Main: the timers of scheduler/main.py, and
--     Scheduler/Process: its loop with what the three responsibilities do.
--   Api/Jobs: apps/jobs/views.py. Api/Serializer: the checks of apps/jobs/serializers.py. Api/Save: its
--     create and update, and the endpoints that call them; Api/Save/Stale has the save of a job that
--     others have written since it was read. Api/Executions: the queries of
--     apps/executions/views.py. Api/Ops: its ops endpoints, and the commands reset_stuck_runs and
--     cleanup_old_runs.
--   Http/RateLimit: nexusops/ratelimit.py. Http/Idempotency: nexusops/middleware.py. Http/Health:
--     apps/core/health.py. Http/Data: what the two middlewares read and write.
--     Http/Stack: their order, which is that of MIDDLEWARE in nexusops/settings.py.
--   System: the processes together. System/Steps has a step for each transaction, or each call that
--     reads and writes at once, with all its arguments free; a request that changes, deletes or triggers
--     a job reads it in one step and goes on in a later one. A state is the database, the attempts that
--     were handed to workers, whose callbacks may come at any later time, the rows of jobs that requests
--     have read, the runs of triggers that have not written their attempt yet (System/Started), the
--     verdicts on runs that were decided on and are not saved yet (System/Verdicts), and the transactions
--     of _handle_expired_attempt that have read their row and not committed (System/Expiring). Such a
--     transaction reads without a lock and updates by the id alone, so it is three steps: the reading, the
--     counting and the commit (Scheduler/Watchdog/Transaction), with any steps in between.
--     Scheduler/Watchdog has the same function as it runs undisturbed. README allows several schedulers;
--     System/Alone restricts a history to one, whose watchdog has one such transaction under way;
--     System/TwoSchedulers has what two of them make of one attempt.
--     System/Lifecycle has the life of one attempt as a state machine, System/Processes operations
--     that are several steps, System/Bounded the number of attempts of a run, System/Handed how often an attempt is handed out, System/Execution the way
--     of a claim to the end of its run, System/Triggered a trigger that the watchdog comes between,
--     System/Overruled a verdict that is saved after the success that it did not see.
-- A function has the name that it has in the code. It takes the database and returns it changed, with
-- its result. An exception is a constructor of the result, and a transaction that rolls back returns
-- the database that it was given. Files below a component's file hold its proofs; Tests files hold
-- runs on concrete rows.
--
-- Parameters: the readings of the clock, which are arguments in microseconds, so that an operation that
-- reads it twice takes two; the rows that other transactions hold locked (SKIP LOCKED); the database's
-- sort for an `order_by`, a record OrderBy of a function and its laws (it permutes the rows and sorts
-- them, and ties may come in any order); croniter and zoneinfo (Calendar, Checks); the errors of the
-- fields that the REST framework refuses by itself; what pika answers (Pika); whether the broker takes
-- a message, and whether Redis works; what a handler does; the view behind a middleware. A UUID is a
-- number that the database counts up, so that it is never drawn twice. Numbers have no bound, as in
-- Python; timestamps do not go below 0. There is no fuel: every loop is a recursion on the list that it
-- walks over, and the two endless loops are recursions on the list of the turns that they take.
--
-- Simplified: the three reads of _update_run_status (worker/main.py) are taken from one state of the
-- tables. find_expired_leases (worker/heartbeat.py) returns its rows in the order of the table, where
-- the ordering of the model's Meta gives the newest first; each row is handled in a transaction of its
-- own, so the order shows in the ids of the retries alone.
--
-- Not modelled: the rendering of JSON and HTML (apps/executions/dashboard.py, templates); the success
-- rate and the average duration of the dashboard, which are floating point; routing, migrations and
-- the settings but for the order of the middlewares; logging. A database error in the middle of an
-- operation is modelled only as a failed commit of the publisher's batch. The rate limiter counts
-- millionths of a token exactly, where the code uses floating point.
pub mod Base
pub mod Table
pub mod OrderBy
pub mod Models
pub mod Worker
pub mod Scheduler
pub mod Api
pub mod Http
pub mod System
