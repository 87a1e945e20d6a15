-- ===== src/System/Sweep.antt =====
-- A whole pass of the watchdog, in a database whose rows are sound.
use job_schedular.Base.{
  ◌&&◌, not, ℕ, suc, ◌<◌, ◌≡◌, refl, sym, subst, inl, inr, Bool, true, false, Option, some, List,
  [], ◌∷◌, arith, ◌==◌, ==_iff, ==-refl, Bool-cases, All, All-map, All-of_mem, All-of_Memᴰ,
}
use job_schedular.Table.{select, count, exists}
use job_schedular.Table.Counts.{count_pos_of_Memᴰ}
use job_schedular.Table.Rows.{exists-of_mem, Memᴰ-select, Memᴰ-of_select}
use job_schedular.Models.{Job, JobRun, JobAttempt, Database}
use job_schedular.Models.Status.{run_is_open, attempt_is_active}
use job_schedular.Worker.Main.{of_run}
use job_schedular.Worker.Heartbeat.{find_expired_leases}
use job_schedular.Scheduler.Watchdog.{
  Expiry, is_over, rescheduled, not_rescheduled, does_not_exist, type_error, handle_expired_attempt,
  handle_expired, mark_dead_workers, run_watchdog, WatchdogResult,
}
use job_schedular.Scheduler.Watchdog.Closing.{IsSettled, mark_permanently_failed-IsSettled}
use job_schedular.System.Attempts.{has_id}
use job_schedular.System.Tables.{Ok}
use job_schedular.System.Retries.{handle_expired_attempt-Ok}
use job_schedular.System.Steps.{State, Reach, start}
use job_schedular.System.Steps.Safe.{start-IsSafe, Reach-IsSafe}
use job_schedular.System.Expiry.{
  is_expired, is_exception, IsLeft, IsHandled, handle_expired_attempt-IsHandled,
}

-- What the loop over the expired attempts needs of the rows and of the attempts still to come.
record IsPending (now : ℕ) (rest : List JobAttempt) (db : Database) : Type 0 where
  ok : Ok db
  there : All (λ x. 0 < count (has_id x.id) db.attempts) rest
  covered : All (λ b. is_expired now b ≡ true → exists (λ x. x.id == b.id) rest ≡ true) db.attempts

handled-IsPending :
    (clock : ℕ → ℕ) (x : JobAttempt) (rest : List JobAttempt) (now : ℕ) (db : Database)
    → IsPending now (x ∷ rest) db
    → IsPending now rest (handle_expired_attempt clock x now db).0
unfolding exists
handled-IsPending clock x rest now db p = record {
  ok = handle_expired_attempt-Ok clock x now db p.ok;
  there =
      All-map (λ y. 0 < count (has_id y.id) db.attempts) _
        (λ y h. omega (arith, handled.keeps y.id)) rest p.there.1;
  covered = All-map (IsLeft now x.id db.attempts) _ among _ handled.left;
}
  where
    handled : IsHandled now x.id db.attempts (handle_expired_attempt clock x now db)
    handled = handle_expired_attempt-IsHandled clock x now db p.ok p.there.0

    among :
        (b : JobAttempt)
        → IsLeft now x.id db.attempts b
        → is_expired now b ≡ true
        → exists (λ y. y.id == b.id) rest ≡ true
    among b l e =
        let old = l e in
        let known =
          All-of_Memᴰ (λ b. is_expired now b ≡ true → exists (λ y. y.id == b.id) (x ∷ rest) ≡ true)
            b db.attempts p.covered old.0 e in
        elim (Bool-cases (x.id == b.id)) [
          | inl same ↦ absurd (ground (arith, (==_iff x.id b.id).0 same, old.1, ==-refl b.id))
          | inr other ↦ ground arith
        ]

-- The loop ends with a number, and leaves no attempt expired.
abbrev IsSwept : ℕ → Database × Option ℕ → Type 0
IsSwept now r = ((n : ℕ) × (r.1 ≡ some n)) × All (λ b. is_expired now b ≡ false) r.0.attempts

handle_expired-IsSwept :
    (clock : ℕ → ℕ) (rest : List JobAttempt) (now n : ℕ) (db : Database)
    → IsPending now rest db
    → IsSwept now (handle_expired clock rest now n db)
unfolding handle_expired exists
handle_expired-IsSwept clock [] now n db p =
    ((n, refl), All-map _ (λ b. is_expired now b ≡ false) uncovered db.attempts p.covered)
  where
    uncovered :
        (b : JobAttempt)
        → (is_expired now b ≡ true → exists (λ (x : JobAttempt). x.id == b.id) [] ≡ true)
        → is_expired now b ≡ false
    uncovered b h = elim (Bool-cases (is_expired now b)) [
      | inl e ↦ absurd (ground (arith, h e))
      | inr e ↦ e
    ]
handle_expired-IsSwept clock (x ∷ rest) now n db p =
    by_outcome (λ k. handle_expired-IsSwept clock rest now k _ next)
      (handle_expired_attempt clock x now db).1 refl
  where
    next : IsPending now rest (handle_expired_attempt clock x now db).0
    next = handled-IsPending clock x rest now db p

    fine : is_exception (handle_expired_attempt clock x now db).1 ≡ false
    fine = (handle_expired_attempt-IsHandled clock x now db p.ok p.there.0).succeeds

    by_outcome :
        ((k : ℕ)
          → IsSwept now (handle_expired clock rest now k (handle_expired_attempt clock x now db).0))
        → (e : Expiry) → (handle_expired_attempt clock x now db).1 ≡ e
        → IsSwept now (handle_expired clock (x ∷ rest) now n db)
    by_outcome ih rescheduled e = rw (e, handle_expired) (ih (suc n))
    by_outcome ih not_rescheduled e = rw (e, handle_expired) (ih n)
    by_outcome ih does_not_exist e =
        absurd (ground (arith, subst (λ o. is_exception o ≡ false) e fine))
    by_outcome ih type_error e = absurd (ground (arith, subst (λ o. is_exception o ≡ false) e fine))

found-IsPending : (now : ℕ) (db : Database) → Ok db → IsPending now (find_expired_leases now db) db
unfolding find_expired_leases
found-IsPending now db ok = record {
  ok = ok;
  there =
      All-of_mem (λ x. 0 < count (has_id x.id) db.attempts) _
        (λ x m.
          count_pos_of_Memᴰ (has_id x.id) db.attempts x (==-refl x.id)
            (Memᴰ-of_select (is_expired now) db.attempts x m).0);
  covered = All-of_mem _ db.attempts (λ b m e.
      exists-of_mem (λ x. x.id == b.id) (select (is_expired now) db.attempts) b
        (Memᴰ-select (is_expired now) db.attempts b m e) (==-refl b.id));
}

-- The attempt is QUEUED, or RUNNING under a lease that has not expired.
abbrev pub is_waiting : ℕ → JobAttempt → Bool
is_waiting now a = attempt_is_active a.status && not (is_expired now a)

-- A run that is open has an attempt that waits or works.
abbrev pub IsWatched : ℕ → List JobAttempt → JobRun → Type 0
IsWatched now attempts r =
    (run_is_open r.status && not (exists (λ a. of_run r.id a && is_waiting now a) attempts)) ≡ false

some-waiting :
    (now run_id : ℕ) (attempts : List JobAttempt)
    → All (λ b. is_expired now b ≡ false) attempts
    → is_over (select (of_run run_id) attempts) ≡ false
    → exists (λ a. of_run run_id a && is_waiting now a) attempts ≡ true
unfolding exists select
some-waiting now run_id [] all h = cc
some-waiting now run_id (a ∷ attempts) all h = elim (Bool-cases (of_run run_id a)) [
  | inl mine ↦ elim (Bool-cases (attempt_is_active a.status)) [
    | inl active ↦ ground (arith, mine, active, all.0)
    | inr ended ↦ ground (arith, some-waiting now run_id attempts all.1, mine, ended)
  ]
  | inr other ↦ ground (arith, some-waiting now run_id attempts all.1, other)
]

watched :
    (now : ℕ) (attempts : List JobAttempt) (r : JobRun)
    → All (λ b. is_expired now b ≡ false) attempts
    → IsSettled attempts r
    → IsWatched now attempts r
watched now attempts r live settled = elim (Bool-cases (run_is_open r.status)) [
  | inl is_open ↦
      rw is_open (rw (some-waiting now r.id attempts live (ground (arith, settled, is_open))) refl)
  | inr closed ↦ rw closed refl
]

select-none :
    {A : Type 0} (p : A → Bool) (xs : List A) → All (λ a. p a ≡ false) xs → select p xs ≡ []
unfolding select
select-none p [] all = refl
select-none p (x ∷ xs) all = rw all.0 (select-none p xs all.1)

run_watchdog-Ok :
    (clock : ℕ → ℕ) (now : ℕ) (db : Database)
    → Ok db
    → let (after, result) = run_watchdog clock now db in
      ((r : WatchdogResult) × (result ≡ some r))
      × (find_expired_leases now after ≡ [])
      × All (IsWatched now after.attempts) after.runs
unfolding run_watchdog mark_dead_workers find_expired_leases
run_watchdog-Ok clock now db ok =
    let swept =
      handle_expired-IsSwept clock (find_expired_leases now db) now 0 db
        (found-IsPending now db ok) in
    let settled = mark_permanently_failed-IsSettled now _ in
    let live = subst (λ xs. All (λ b. is_expired now b ≡ false) xs) (sym settled.0) swept.1 in
    rw (swept.0.1, run_watchdog)
      (
        (_, refl),
        select-none (is_expired now) _ live,
        All-map (IsSettled _) (IsWatched now _)
            (λ r h. watched now _ r live (subst (λ xs. IsSettled xs r) (sym settled.0) h)) _
            settled.1,
      )

-- In every reachable state a pass of the watchdog, with no other writes in between, ends with a result
-- and no exception; after it no RUNNING attempt has a lease that has expired, and every run that is still open
-- has an attempt that is QUEUED, or RUNNING under a lease that lasts: no run is left without one.
pub Reach-run_watchdog :
    (jobs : List Job) (s : State)
    → Reach (start jobs) s
    → (clock : ℕ → ℕ) (now : ℕ)
    → let (after, result) = run_watchdog clock now s.db in
      ((r : WatchdogResult) × (result ≡ some r))
      × (find_expired_leases now after ≡ [])
      × All (IsWatched now after.attempts) after.runs
Reach-run_watchdog jobs s r clock now =
    run_watchdog-Ok clock now s.db (Reach-IsSafe (start-IsSafe jobs) r).tables
