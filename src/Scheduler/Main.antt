-- ===== src/Scheduler/Main.antt =====
-- scheduler/main.py: the loop that runs the tick, the publisher and the watchdog, each in its own
-- interval. What the three do is not looked at here; an exception in one of them is caught, so it
-- changes nothing of this.
use job_schedular.Base.{
  Bool-cases, leb→le, inl, inr, ℕ, suc, ◌*◌, ◌-◌, ◌≤◌, ◌<◌, List, [], ◌∷◌, arith, leb, ◌+◌, ◌⊎◌,
  ◌≡◌, refl, if◌then◌else◌,
}
use job_schedular.Models.{second}

-- `last_...` and `..._count` of one of the three responsibilities.
pub record Timer : Type 0 where
  pub last : ℕ
  pub runs : ℕ

pub record Loop : Type 0 where
  pub tick : Timer
  pub publisher : Timer
  pub watchdog : Timer

abbrev pub tick_interval_seconds : ℕ
tick_interval_seconds = 5

abbrev pub publisher_interval_seconds : ℕ
publisher_interval_seconds = 1

abbrev pub watchdog_interval_seconds : ℕ
watchdog_interval_seconds = 10

-- `if now - last >= INTERVAL: ...; last = now; count += 1`.
unfoldable pub fire : ℕ → ℕ → Timer → Timer
fire interval now t =
    if leb (interval * second) (now - t.last) then record { last = now; runs = suc t.runs } else t

unfoldable pub scheduler_turn : ℕ → Loop → Loop
scheduler_turn now loop = record {
  tick = fire tick_interval_seconds now loop.tick;
  publisher = fire publisher_interval_seconds now loop.publisher;
  watchdog = fire watchdog_interval_seconds now loop.watchdog;
}

unfoldable pub scheduler_run : List ℕ → Loop → Loop
scheduler_run [] loop = loop
scheduler_run (t ∷ ts) loop = scheduler_run ts (scheduler_turn t loop)

abbrev pub IsWithin : ℕ → List ℕ → ℕ → Type 0
IsWithin from [] to = from ≤ to
IsWithin from (t ∷ ts) to = (from ≤ t) × IsWithin t ts to

abbrev pub initial : Loop
initial = record {
  tick = record { last = 0; runs = 0 };
  publisher = record { last = 0; runs = 0 };
  watchdog = record { last = 0; runs = 0 };
}

-- From the timer `start` at the time `from` on, the timer has run at most once more than its interval fits
-- in the time that has passed.
abbrev InWindow : ℕ → ℕ → Timer → ℕ → Timer → Type 0
InWindow interval from start now t =
    (t.last ≤ now)
    × ((t.runs * (interval * second) ≤ start.runs * (interval * second))
        ⊎ ((from ≤ t.last)
            × (t.runs * (interval * second) + from
                ≤ start.runs * (interval * second) + interval * second + t.last)))

fire-InWindow :
    (interval from prev now : ℕ) (start t : Timer)
    → from ≤ now
    → prev ≤ now
    → InWindow interval from start prev t
    → InWindow interval from start now (fire interval now t)
unfolding fire
fire-InWindow interval from prev now start t f h p =
    elim (Bool-cases (leb (interval * second) (now - t.last))) [
      | inl e ↦ rw e (elim p.1 [
        | inl same ↦ (omega arith, inr (f, omega (arith, same)))
        | inr (l, q) ↦ (omega arith, inr (f, omega (arith, q, p.0, leb→le _ _ e)))
      ])
      | inr e ↦ rw e (omega (arith, p.0, h), p.1)
    ]

-- A timer runs now, and its interval has passed; or nothing happens, and it has not.
abbrev pub IsTurned : ℕ → ℕ → Timer → Timer → Type 0
IsTurned interval now before after =
    ((interval * second ≤ now - before.last) × (after.last ≡ now) × (after.runs ≡ suc before.runs))
    ⊎ ((now - before.last < interval * second) × (after ≡ before))

fire-IsTurned : (interval now : ℕ) (t : Timer) → IsTurned interval now t (fire interval now t)
unfolding fire
fire-IsTurned interval now t = elim (Bool-cases (leb (interval * second) (now - t.last))) [
  | inl e ↦ rw e (inl (leb→le _ _ e, refl, refl))
  | inr e ↦ rw e (inr (ground (arith, e), refl))
]

-- What holds of each of the three responsibilities.
abbrev EachTimer : (ℕ → (Loop → Timer) → Type 0) → Type 0
EachTimer P =
    P tick_interval_seconds (λ l. l.tick)
    × P publisher_interval_seconds (λ l. l.publisher)
    × P watchdog_interval_seconds (λ l. l.watchdog)

turn-InWindow :
    (from prev now : ℕ) (start loop : Loop)
    → from ≤ now
    → prev ≤ now
    → EachTimer (λ interval timer. InWindow interval from (timer start) prev (timer loop))
    → EachTimer (λ interval timer.
      InWindow interval from (timer start) now (timer (scheduler_turn now loop)))
unfolding scheduler_turn
turn-InWindow from prev now start loop f h p = (
  fire-InWindow tick_interval_seconds from prev now start.tick loop.tick f h p.0,
  fire-InWindow publisher_interval_seconds from prev now start.publisher loop.publisher f h p.1,
  fire-InWindow watchdog_interval_seconds from prev now start.watchdog loop.watchdog f h p.2,
)

IsWithin→≤ : (ts : List ℕ) (from to : ℕ) → IsWithin from ts to → from ≤ to
IsWithin→≤ [] from to h = h
IsWithin→≤ (t ∷ ts) from to h = omega (arith, h.0, IsWithin→≤ ts t to h.1)

run-InWindow :
    (ts : List ℕ) (from prev to : ℕ) (start loop : Loop)
    → from ≤ prev
    → IsWithin prev ts to
    → EachTimer (λ interval timer. InWindow interval from (timer start) prev (timer loop))
    → EachTimer
        (λ interval timer. InWindow interval from (timer start) to (timer (scheduler_run ts loop)))
unfolding scheduler_run
run-InWindow [] from prev to start loop f h p =
    ((omega arith, p.0.1), (omega arith, p.1.1), (omega arith, p.2.1))
run-InWindow (t ∷ ts) from prev to start loop f h p =
    run-InWindow ts from t to start (scheduler_turn t loop) (omega arith) h.1
      (turn-InWindow from prev t start loop (omega arith) h.0 p)

-- The runs of each timer in a stretch of time.
abbrev pub HasSpacing : ℕ → Loop → Loop → Type 0
HasSpacing elapsed start loop =
    (loop.tick.runs * (5 * second) ≤ start.tick.runs * (5 * second) + 5 * second + elapsed)
    × (loop.publisher.runs * (1 * second)
        ≤ start.publisher.runs * (1 * second) + 1 * second + elapsed)
    × (loop.watchdog.runs * (10 * second)
        ≤ start.watchdog.runs * (10 * second) + 10 * second + elapsed)

window-paced :
    (interval from to : ℕ) (start t : Timer)
    → from ≤ to
    → InWindow interval from start to t
    → t.runs * (interval * second)
      ≤ start.runs * (interval * second) + interval * second + (to - from)
window-paced interval from to start t h (l, inl same) = omega arith
window-paced interval from to start t h (l, inr (f, p)) = omega arith

-- If the clock does not go back, then between any two times of a run the tick has run at most once more than
-- five seconds fit in between, the publisher than one second and the watchdog than ten seconds; and in
-- each turn a responsibility runs, with its last run now, exactly if its interval has passed since its last
-- run, and else its timer stays as it is.
pub scheduler_run_paced :
    (loop : Loop) (ts : List ℕ) (from now : ℕ)
    → loop.tick.last ≤ from
    → loop.publisher.last ≤ from
    → loop.watchdog.last ≤ from
    → IsWithin from ts now
    → let before = scheduler_run ts loop in
      let after = scheduler_turn now before in
      HasSpacing (now - from) loop after
      × (IsTurned 5 now before.tick after.tick
          × IsTurned 1 now before.publisher after.publisher
          × IsTurned 10 now before.watchdog after.watchdog)
unfolding scheduler_turn
scheduler_run_paced loop ts from now a b c h =
    let le = IsWithin→≤ ts from now h in
    let run = scheduler_run ts loop in
    let p = turn-InWindow from now now loop run le (omega arith) (
      run-InWindow ts from from now loop loop (omega arith) h
        ((a, inl (omega arith)), (b, inl (omega arith)), (c, inl (omega arith)))) in
    (
      (
        window-paced 5 from now loop.tick (fire 5 now run.tick) le p.0,
        window-paced 1 from now loop.publisher (fire 1 now run.publisher) le p.1,
        window-paced 10 from now loop.watchdog (fire 10 now run.watchdog) le p.2,
      ),
      (
        fire-IsTurned 5 now run.tick,
        fire-IsTurned 1 now run.publisher,
        fire-IsTurned 10 now run.watchdog,
      ),
    )
