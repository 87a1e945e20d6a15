-- ===== src/System/Alone.antt =====
-- One scheduler process: its watchdog has at most one transaction under way.
pub mod Grown
pub mod Keeps
use job_schedular.Base.{ℕ, suc, ◌≤◌, ◌≡◌, some, List, [], Memᴰ, true, length, All}
use job_schedular.Table.{count}
use job_schedular.Models.{JobAttempt, Database}
use job_schedular.Models.Status.{attempt_is_active}
use job_schedular.Worker.Main.{of_run}
use job_schedular.Scheduler.Watchdog.Transaction.{Expiring}
use job_schedular.System.Steps.{State, Step, Reach}

-- A watchdog reads no expired attempt while another transaction of a watchdog is under way.
abbrev pub Alone : {s t : State} → Step s t → Type 0
Alone {s} (Step.looks attempt_id now row e due) = s.expiring ≡ []
Alone _ = Unit

-- The states that are reached with one scheduler, and any number of workers, requests and operators.
pub data ReachAlone (s : State) : State → Type 0 where
  here : ReachAlone s s
  next : {t u : State} → ReachAlone s t → (step : Step t u) → Alone step → ReachAlone s u

pub Reach-of_alone : {s t : State} → ReachAlone s t → Reach s t
Reach-of_alone here = Reach.here
Reach-of_alone (next r step alone) = Reach.next (Reach-of_alone r) step

-- Two active attempts of one run are one.
abbrev pub AllOne : List JobAttempt → Type 0
AllOne xs =
    (a b : JobAttempt)
    → Memᴰ a xs
    → Memᴰ b xs
    → attempt_is_active a.status ≡ true
    → attempt_is_active b.status ≡ true
    → a.job_run_id ≡ b.job_run_id
    → a.id ≡ b.id

-- An active attempt of the run is the one that is about to time out, and the run has no more attempts than
-- were counted.
pub record IsOnly (xs : List JobAttempt) (e : Expiring) : Type 0 where
  pub active :
      (a : JobAttempt)
      → Memᴰ a xs
      → attempt_is_active a.status ≡ true
      → a.job_run_id ≡ e.row.job_run_id
      → a.id ≡ e.row.id
  pub counted : (n : ℕ) → e.total_attempts ≡ some n → count (of_run e.row.job_run_id) xs ≤ n

pub record IsAlone (s : State) : Type 0 where
  pub one : AllOne s.db.attempts
  pub short : length s.expiring ≤ 1
  pub only : All (IsOnly s.db.attempts) s.expiring
