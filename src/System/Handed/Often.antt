-- ===== src/System/Handed/Often.antt =====
-- An attempt is handed out at most once, and once more for each time that operators put attempts back.
use job_schedular.Base.{
  ℕ, suc, ◌+◌, ◌≤◌, ◌<◌, ◌≡◌, subst, inl, inr, true, false, List, arith, leb, ◌==◌, ==_iff,
  if◌then◌else◌, Bool-cases, All, All-of_Memᴰ,
}
use job_schedular.Table.{count}
use job_schedular.Table.Counts.{count_pos_of_Memᴰ, count_fresh, count-le}
use job_schedular.Table.Rows.{row_of_count}
use job_schedular.System.Tables.{Ok}
use job_schedular.Models.{Job, JobAttempt, Database}
use job_schedular.Models.Status.{attempt_is_running}
use job_schedular.Worker.Claim.{is_still_queued}
use job_schedular.System.Attempts.{has_id, row_of_id}
use job_schedular.System.Steps.{State, Step, Reach, here, next, start}
use job_schedular.System.Steps.Safe.{IsSafe, start-IsSafe, Reach-IsSafe, Step-IsSafe}
use job_schedular.System.Lifecycle.{Comes, IsMoved}
use job_schedular.System.Lifecycle.Refines.{is_requeue, Step-Moves}
use job_schedular.System.Handed.{IsHandedOut, Step-Hands}

-- The number of the resets of stuck runs on the way.
abbrev pub resets_of : {s t : State} → Reach s t → ℕ
resets_of here = 0
resets_of (next r step) = (if is_requeue step then 1 else 0) + resets_of r

-- 1 if the attempt with this id may still be handed out: it is QUEUED, or not there yet.
abbrev may_come : ℕ → Database → ℕ
may_come i db = count (is_still_queued i) db.attempts + (if leb db.next_id i then 1 else 0)

-- No id can still come twice.
may_come-le : (i : ℕ) (db : Database) → Ok db → may_come i db ≤ 1
may_come-le i db ok = elim (Bool-cases (leb db.next_id i)) [
  | inl new ↦ rw new (
      omega (
        arith,
        fewer,
        count_fresh (λ a. a.id) db.next_id i db.attempts ok.attempts.ids_below
            (ground (arith, new)),
      ))
  | inr old ↦ rw old (omega (arith, fewer, ok.attempts.unique_ids i))
]
  where
    fewer : count (is_still_queued i) db.attempts ≤ count (has_id i) db.attempts
    fewer = count-le (is_still_queued i) (has_id i) (λ a h. ground arith) db.attempts

was_queued :
    (i : ℕ) (a b : JobAttempt)
    → IsMoved false a b
    → is_still_queued i b ≡ true
    → is_still_queued i a ≡ true
was_queued i a b moved h = ground (arith, moved.id, moved.status)

-- A step that requeues nothing lets no other id come.
may_come-Comes :
    (s t : State)
    → IsSafe t
    → s.db.next_id ≤ t.db.next_id
    → All (Comes false s.db.next_id s.db.attempts) t.db.attempts
    → (i : ℕ) → may_come i t.db ≤ may_come i s.db
may_come-Comes s t safe later rows i =
    elim (Bool-cases (count (is_still_queued i) t.db.attempts == 0)) [
      | inl none_queued ↦ ground (arith, later, none_queued)
      | inr queued ↦
          let (b, mb, fits) =
            row_of_count (is_still_queued i) t.db.attempts (ground (arith, queued)) in
          elim (All-of_Memᴰ (Comes false s.db.next_id s.db.attempts) b _ rows mb) [
            | inl (a, ma, moved) ↦ omega (
              arith,
              may_come-le i t.db safe.tables,
              count_pos_of_Memᴰ (is_still_queued i) s.db.attempts a (was_queued i a b moved fits)
                  ma,
            )
            | inr (new, q) ↦ ground (arith, may_come-le i t.db safe.tables, new, fits)
          ]
    ]

running_queued :
    (c : JobAttempt) → attempt_is_running c.status ≡ true → is_still_queued c.id c ≡ true → ⊥
running_queued c running queued = ground arith

-- The attempt that is handed out does not come again.
handed-may_come :
    (s t : State) (c : JobAttempt)
    → IsSafe s
    → IsSafe t
    → IsHandedOut s t c
    → (0 < may_come c.id s.db) × (may_come c.id t.db ≡ 0)
handed-may_come s t c safe after h = (
  omega (
    arith,
    count_pos_of_Memᴰ (is_still_queued c.id) s.db.attempts h.before
        (ground (arith, h.same_id, h.queued)) h.there,
  ),
  ground (
    arith,
    none_left,
    All-of_Memᴰ (λ a. a.id < t.db.next_id) c _ after.tables.attempts.ids_below h.now_there,
  ),
)
  where
    none_left : count (is_still_queued c.id) t.db.attempts ≡ 0
    none_left = elim (Bool-cases (count (is_still_queued c.id) t.db.attempts == 0)) [
      | inl e ↦ ground arith
      | inr e ↦
          let (b, mb, fits) =
            row_of_count (is_still_queued c.id) t.db.attempts (ground (arith, e)) in
          let itself : b ≡ c =
            row_of_id after.tables.attempts b c mb h.now_there (ground (arith, fits)) in
          absurd
            (running_queued c h.running (subst (λ x. is_still_queued c.id x ≡ true) itself fits))
    ]

-- The number of times that an attempt was handed out, and whether it may come.
abbrev handings : ℕ → State → ℕ
handings i s = count (has_id i) s.handed + may_come i s.db

Step-may_come :
    {s t : State} (step : Step s t)
    → IsSafe s
    → (i : ℕ) → may_come i t.db ≤ may_come i s.db + (if is_requeue step then 1 else 0)
Step-may_come {s} {t} step safe i =
    let after = Step-IsSafe step safe in
    let evolves = Step-Moves step safe in
    elim (Bool-cases (is_requeue step)) [
      | inl e ↦ rw e (omega (arith, may_come-le i t.db after.tables))
      | inr e ↦ rw e (
          omega (
            arith,
            may_come-Comes s t after evolves.later
                (subst (λ r. All (Comes r s.db.next_id s.db.attempts) t.db.attempts) e evolves.rows)
                i,
          ))
    ]

Step-handings :
    {s t : State} (step : Step s t)
    → IsSafe s
    → (i : ℕ) → handings i t ≤ handings i s + (if is_requeue step then 1 else 0)
unfolding count
Step-handings {s} {t} step safe i =
    let later = Step-may_come step safe i in
    elim (Step-Hands step safe) [
      | inl same ↦ rw same (omega (arith, later))
      | inr (c, h) ↦
          let once = handed-may_come s t c safe (Step-IsSafe step safe) h in
          rw h.handed (elim (Bool-cases (c.id == i)) [
            | inl e ↦
                let here =
                  subst (λ k. (0 < may_come k s.db) × (may_come k t.db ≡ 0)) ((==_iff c.id i).0 e)
                    once in
                rw e (omega (arith, here.0, here.1))
            | inr e ↦ rw e (omega (arith, later))
          ])
    ]

Reach-handings :
    {s t : State} (r : Reach s t) → IsSafe s → (i : ℕ) → handings i t ≤ handings i s + resets_of r
Reach-handings here safe i = omega arith
Reach-handings (next r step) safe i =
    omega (arith, Reach-handings r safe i, Step-handings step (Reach-IsSafe safe r) i)

-- Whatever the processes do, no attempt is handed to workers more often than once, and once more for each
-- reset of stuck runs that operators made: without a reset, no attempt is executed twice, not even after its
-- lease has run out.
pub Reach-handed :
    (jobs : List Job) (s : State) (r : Reach (start jobs) s)
    → (i : ℕ) → count (has_id i) s.handed ≤ suc (resets_of r)
unfolding count
Reach-handed jobs s r i = omega (
  arith,
  Reach-handings r (start-IsSafe jobs) i,
  may_come-le i (start jobs).db (start-IsSafe jobs).tables,
)
