-- ===== src/Scheduler/Watchdog/Pass.antt =====
-- What every part of a pass of the watchdog keeps, the pass keeps, whether it ends or raises.
use job_schedular.Base.{ℕ, suc, ◌≡◌, refl, Option, none, some, List, [], ◌∷◌}
use job_schedular.Models.{JobAttempt, Database}
use job_schedular.Worker.Heartbeat.{find_expired_leases}
use job_schedular.Scheduler.Watchdog.{
  Expiry, handle_expired_attempt, handle_expired, run_watchdog, mark_permanently_failed,
  mark_dead_workers,
}

module _ {κ} (P : Database → Type κ) (clock : ℕ → ℕ) (now : ℕ)
    (expire : (attempt : JobAttempt) (db : Database)
      → P db
      → P (handle_expired_attempt clock attempt now db).0) where
  pub handle_expired_ind :
      (expired : List JobAttempt) (n : ℕ) (db : Database)
      → P db
      → P (handle_expired clock expired now n db).0
  unfolding handle_expired
  handle_expired_ind [] n db p = p
  handle_expired_ind (attempt ∷ rest) n db p = go (λ m. handle_expired_ind rest m _ p') _ refl
    where
      p' : P (handle_expired_attempt clock attempt now db).0
      p' = expire attempt db p

      go :
          ((m : ℕ)
            → P (handle_expired clock rest now m (handle_expired_attempt clock attempt now db).0).0)
          → (outcome : Expiry) → (handle_expired_attempt clock attempt now db).1 ≡ outcome
          → P (handle_expired clock (attempt ∷ rest) now n db).0
      go ih Expiry.rescheduled e = rw (handle_expired, e) (ih (suc n))
      go ih Expiry.not_rescheduled e = rw (handle_expired, e) (ih n)
      go ih Expiry.does_not_exist e = rw (handle_expired, e) p'
      go ih Expiry.type_error e = rw (handle_expired, e) p'

  module _ (close : (db : Database) → P db → P (mark_permanently_failed now db).0)
      (sweep : (db : Database) → P db → P (mark_dead_workers now db).0) where
    pub run_watchdog_ind : (db : Database) → P db → P (run_watchdog clock now db).0
    unfolding run_watchdog
    run_watchdog_ind db p = go _ refl
      where
        p' : P (handle_expired clock (find_expired_leases now db) now 0 db).0
        p' = handle_expired_ind (find_expired_leases now db) 0 db p

        go :
            (outcome : Option ℕ)
            → (handle_expired clock (find_expired_leases now db) now 0 db).1 ≡ outcome
            → P (run_watchdog clock now db).0
        go none e = rw (run_watchdog, e) p'
        go (some n) e = rw (run_watchdog, e) (sweep _ (close _ p'))
