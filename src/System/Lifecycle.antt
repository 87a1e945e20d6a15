-- ===== src/System/Lifecycle.antt =====
-- The life of an attempt as a state machine, and the rules by which the tables follow it.
pub mod Parts
pub mod Others
pub mod Refines
use job_schedular.Base.{
  ℕ, suc, ◌<◌, ◌≤◌, ◌≡◌, refl, sym, ap, ◌∙◌, subst, ◌⊎◌, inl, inr, Bool, true, false, List, [], ◌∷◌,
  Memᴰ, arith, All, All-append, All-of_mem,
}
use job_schedular.Table.{count, update, delete, insert}
use job_schedular.Table.Rows.{Memᴰ-of_update, All-delete}
use job_schedular.Models.{JobAttempt, Database}
use job_schedular.Models.Status.{AttemptStatus, attempt_is_queued, attempt_is_active}
use job_schedular.Worker.Main.{of_run}
use job_schedular.Table.Counts.{count-insert, count-le-of_delete, count-update_mem}

abbrev pub is_reported : AttemptStatus → Bool
is_reported AttemptStatus.success = true
is_reported AttemptStatus.failed = true
is_reported _ = false

-- The moves of the machine. A queued attempt may be claimed; a running one may end, or be put back into
-- the queue if the step is one that requeues; an attempt that has ended may be reported on once more, and is
-- never queued again. Any attempt may be timed out, since the watchdog writes by the id alone what it has
-- decided on from an earlier reading.
abbrev pub is_move : Bool → AttemptStatus → AttemptStatus → Bool
is_move requeues _ AttemptStatus.timed_out = true
is_move requeues AttemptStatus.queued AttemptStatus.queued = true
is_move requeues AttemptStatus.queued AttemptStatus.running = true
is_move requeues AttemptStatus.queued _ = false
is_move requeues AttemptStatus.running AttemptStatus.cancelled = false
is_move requeues AttemptStatus.running AttemptStatus.queued = requeues
is_move requeues AttemptStatus.running _ = true
is_move requeues AttemptStatus.cancelled AttemptStatus.cancelled = true
is_move requeues _ t = is_reported t

is_move_refl : (requeues : Bool) (s : AttemptStatus) → is_move requeues s s ≡ true
is_move_refl requeues AttemptStatus.queued = refl
is_move_refl requeues AttemptStatus.running = refl
is_move_refl requeues AttemptStatus.success = refl
is_move_refl requeues AttemptStatus.failed = refl
is_move_refl requeues AttemptStatus.timed_out = refl
is_move_refl requeues AttemptStatus.cancelled = refl

-- One attempt after another one: the same attempt, moved.
pub record IsMoved (requeues : Bool) (a b : JobAttempt) : Type 0 where
  pub id : b.id ≡ a.id
  pub run : b.job_run_id ≡ a.job_run_id
  pub number : b.attempt_number ≡ a.attempt_number
  pub status : is_move requeues a.status b.status ≡ true

-- A row of the later table is a row of the earlier one, moved, or is new and queued.
abbrev pub Comes : Bool → ℕ → List JobAttempt → JobAttempt → Type 0
Comes requeues next xs b =
    ((a : JobAttempt) × Memᴰ a xs × IsMoved requeues a b)
    ⊎ ((next ≤ b.id) × (attempt_is_queued b.status ≡ true))

-- The same attempt, which was active if it is now.
pub record IsContinued (a b : JobAttempt) : Type 0 where
  pub id : b.id ≡ a.id
  pub run : b.job_run_id ≡ a.job_run_id
  pub active : attempt_is_active b.status ≡ true → attempt_is_active a.status ≡ true

IsContinued-of_moved : (requeues : Bool) (a b : JobAttempt) → IsMoved requeues a b → IsContinued a b
IsContinued-of_moved requeues a b moved = record {
  id = moved.id;
  run = moved.run;
  active = λ h. ground (arith, moved.status, h);
}

IsContinued-refl : (a : JobAttempt) → IsContinued a a
IsContinued-refl a = record { id = refl; run = refl; active = λ h. h }

-- A row of the later table is the first attempt of a new run, or was there with its id and run, and active
-- if it is active now.
abbrev pub OfRun : ℕ → List JobAttempt → JobAttempt → Type 0
OfRun next xs b =
    ((next ≤ b.job_run_id) × (b.id ≡ suc b.job_run_id))
    ⊎ ((a : JobAttempt) × Memᴰ a xs × IsContinued a b)

module _ (requeues : Bool) (next : ℕ) (xs : List JobAttempt) where
  pub record Moves (db : Database) : Type 0 where
    pub rows : All (Comes requeues next xs) db.attempts
    pub later : next ≤ db.next_id

  pub record Evolves (db : Database) : Type 0 where
    pub moves : Moves db
    pub runs : All (OfRun next xs) db.attempts
    pub counts : (i : ℕ) → i < next → count (of_run i) db.attempts ≤ count (of_run i) xs

  pub OfRun-refl : All (OfRun next xs) xs
  OfRun-refl = All-of_mem (OfRun next xs) xs λ b m. inr (b, m, IsContinued-refl b)

  pub Comes-refl : All (Comes requeues next xs) xs
  Comes-refl = All-of_mem (Comes requeues next xs) xs λ b m. inl (
    b,
    m,
    record { id = refl; run = refl; number = refl; status = is_move_refl requeues b.status },
  )

  pub Comes-update :
      (q : JobAttempt → Bool) (f : JobAttempt → JobAttempt)
      → ((a : JobAttempt) → Memᴰ a xs → q a ≡ true → IsMoved requeues a (f a))
      → All (Comes requeues next xs) (update q f xs)
  Comes-update q f h =
      All-of_mem (Comes requeues next xs) (update q f xs)
        λ b m. let (a, found, how) = Memᴰ-of_update q f xs b m in from a b found how
    where
      from :
          (a b : JobAttempt)
          → Memᴰ a xs
          → ((q a ≡ true) × (b ≡ f a)) ⊎ ((q a ≡ false) × (b ≡ a))
          → Comes requeues next xs b
      from a b m (inl (hit, e)) = inl (a, m, subst (IsMoved requeues a) (sym e) (h a m hit))
      from a b m (inr (miss, e)) = inl (
        a,
        m,
        subst (IsMoved requeues a) (sym e) (record {
          id = refl;
          run = refl;
          number = refl;
          status = is_move_refl requeues a.status;
        }),
      )

  pub Comes-insert :
      (ys : List JobAttempt) (b : JobAttempt)
      → next ≤ b.id
      → attempt_is_queued b.status ≡ true
      → All (Comes requeues next xs) ys
      → All (Comes requeues next xs) (insert b ys)
  Comes-insert ys b h q all = All-append (Comes requeues next xs) ys (b ∷ []) all (inr (h, q), tt)

  pub Evolves-update :
      (q : JobAttempt → Bool) (f : JobAttempt → JobAttempt) (db : Database)
      → db.attempts ≡ update q f xs
      → next ≤ db.next_id
      → ((a : JobAttempt) → Memᴰ a xs → q a ≡ true → IsMoved requeues a (f a))
      → Evolves db
  Evolves-update q f db e later h = record {
    moves = record { rows = rw e (Comes-update q f h); later = later };
    runs = rw e (
        All-of_mem (OfRun next xs) (update q f xs)
          λ b m. let (a, found, how) = Memᴰ-of_update q f xs b m in of_run_of a b found how);
    counts = λ i below.
        rw e
          (omega (arith, count-update_mem (of_run i) q f xs (λ a m hit. rw (h a m hit).run refl)));
  }
    where
      of_run_of :
          (a b : JobAttempt)
          → Memᴰ a xs
          → ((q a ≡ true) × (b ≡ f a)) ⊎ ((q a ≡ false) × (b ≡ a))
          → OfRun next xs b
      of_run_of a b m (inl (hit, same)) = inr (
        a,
        m,
        subst (IsContinued a) (sym same) (IsContinued-of_moved requeues a (f a) (h a m hit)),
      )
      of_run_of a b m (inr (miss, same)) =
          inr (a, m, subst (IsContinued a) (sym same) (IsContinued-refl a))

  -- A new attempt is queued, and the first one of a new run.
  pub Evolves-insert :
      (before db : Database) (b : JobAttempt)
      → db.attempts ≡ insert b before.attempts
      → next ≤ db.next_id
      → attempt_is_queued b.status ≡ true
      → next ≤ b.job_run_id
      → b.id ≡ suc b.job_run_id
      → Evolves before
      → Evolves db
  Evolves-insert before db b e later queued new_run first v = record {
    moves = record {
      rows = rw e (Comes-insert before.attempts b (omega (arith, first)) queued v.moves.rows);
      later = later;
    };
    runs =
        rw e
          (All-append (OfRun next xs) before.attempts (b ∷ []) v.runs (inl (new_run, first), tt));
    counts = λ i below.
        rw (e, count-insert (of_run i) b before.attempts)
          (ground (arith, v.counts i below, new_run, below));
  }

  -- Other tables may change.
  pub Evolves-after :
      (before db : Database)
      → db.attempts ≡ before.attempts
      → before.next_id ≤ db.next_id
      → Evolves before
      → Evolves db
  Evolves-after before db e later v = record {
    moves = record { rows = rw e v.moves.rows; later = omega (arith, v.moves.later) };
    runs = rw e v.runs;
    counts = λ i below. rw e (v.counts i below);
  }

  pub Evolves-delete :
      (q : JobAttempt → Bool) (before db : Database)
      → db.attempts ≡ delete q before.attempts
      → before.next_id ≤ db.next_id
      → Evolves before
      → Evolves db
  Evolves-delete q before db e later v = record {
    moves = record {
      rows = rw e (All-delete (Comes requeues next xs) q before.attempts v.moves.rows);
      later = omega (arith, v.moves.later);
    };
    runs = rw e (All-delete (OfRun next xs) q before.attempts v.runs);
    counts = λ i below.
        rw e (omega (arith, v.counts i below, count-le-of_delete (of_run i) q before.attempts));
  }

-- An operation that leaves the attempts as they are.
pub Evolves-same :
    (requeues : Bool) (db after : Database)
    → after.attempts ≡ db.attempts
    → db.next_id ≤ after.next_id
    → Evolves requeues db.next_id db.attempts after
Evolves-same requeues db after same later = record {
  moves = record { rows = rw same (Comes-refl requeues db.next_id db.attempts); later = later };
  runs = rw same (OfRun-refl requeues db.next_id db.attempts);
  counts = λ i below. rw same (omega arith);
}
