-- ===== src/Worker/Process.antt =====
-- The process of worker/main.py, from its registration to its shutdown. The callbacks of the attempts
-- that it claims come in threads of their own.
use job_schedular.Base.{ℕ, List, String}
use job_schedular.OrderBy.{OrderBy}
use job_schedular.Models.{Database}
use job_schedular.Worker.Claim.{EarlierFirst}
use job_schedular.Worker.Heartbeat.{register_worker, mark_worker_dead}
use job_schedular.Worker.Loop.{Turn, worker_run, initial}

-- `main`, stopped by a KeyboardInterrupt after some turns.
unfoldable pub worker_process :
    OrderBy EarlierFirst → String → String → ℕ → ℕ → List Turn → Database → Database
worker_process o worker_id hostname registered_at created_at ts db =
    let registered = (register_worker worker_id hostname registered_at created_at db).0 in
    mark_worker_dead worker_id (worker_run o worker_id ts (initial, registered)).1
