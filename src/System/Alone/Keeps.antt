-- ===== src/System/Alone/Keeps.antt =====
-- The operations keep the attempts of a run that is about to time out as they must be.
use job_schedular.Base.{
  ℕ, ◌<◌, ◌≡◌, refl, sym, ap, ◌∙◌, subst, inl, inr, Bool, true, false, ◌&&◌, none, some, List, [],
  ◌∷◌, ◌++◌, Memᴰ, arith, length, ◌==◌, ==_iff, All, All-of_Memᴰ,
}
use job_schedular.Table.{delete}
use job_schedular.Models.{Job, JobAttempt, Database}
use job_schedular.Worker.Heartbeat.{mark_worker_dead}
use job_schedular.Scheduler.Watchdog.{mark_dead_workers}
use job_schedular.System.Started.{Started, try_first_attempt-cases, IsStarted, create_run-Evolves}
use job_schedular.System.Lifecycle.Parts.{
  tick-Evolves, reset_attempts-Evolves, reset_runs-Evolves, delete_old_attempts-Evolves,
  delete_old_runs-Evolves, send_heartbeat-Evolves, claim_attempt-Evolves, reported-Evolves,
}
use job_schedular.System.Expiring.{IsPending, All-without, All-with}
use job_schedular.Table.Rows.{find?-eq-some}
use job_schedular.System.Lifecycle.Others.{
  publish-Evolves, register-Evolves, delete_found-Evolves, post_job-Evolves, patch_found-Evolves,
}
use job_schedular.Worker.Main.{finish_run}
use job_schedular.System.Lifecycle.{Evolves}
use job_schedular.System.Steps.{
  State, Step, start, ticks, publishes, looks, counts, expires, gives_up, judges_open, saves,
  sweeps, claims, registers, beats, stops, reports, judges, triggers, queues_first, posts_job,
  reads_job, patches_job, deletes_job, resets, resets_runs, cleans, cleans_runs,
}
use job_schedular.System.Steps.Safe.{IsSafe, start-IsSafe, Reach-IsSafe}
use job_schedular.System.Lifecycle.{Evolves-update}
use job_schedular.System.Expiring.{
  commit_expiry-IsCommitted, IsCommitted, rolled_back, ended, retried,
}
use job_schedular.Scheduler.Watchdog.{timed_out_at}
use job_schedular.Scheduler.Watchdog.Transaction.{is_lease_over, Expiring, timed_out_in}
use job_schedular.Table.Counts.{count-insert}
use job_schedular.Api.Jobs.{create_first_attempt, try_first_attempt}
use job_schedular.Models.{new_attempt}
use job_schedular.Models.Status.{attempt_is_active, attempt_is_running}
use job_schedular.Worker.Main.{of_run}
use mathlib.Core.Option.{some-injective}
use job_schedular.System.Alone.{
  here, next, Alone, ReachAlone, Reach-of_alone, AllOne, IsOnly, IsAlone,
}
use job_schedular.System.Alone.Grown.{
  length-without, nil-of_length, Evolves-AllOne, Evolves-IsOnly, AllOne-insert, timed_out-idle,
  Memᴰ-of_insert,
}

-- An operation that opens no run but new ones.
grows :
    (requeues : Bool) (s : State) (after : Database)
    → IsSafe s
    → IsAlone s
    → Evolves requeues s.db.next_id s.db.attempts after
    → IsAlone (record s { db = after })
grows requeues s after safe h v = record {
  one = Evolves-AllOne requeues s.db after v safe.tables.attempts.runs_below h.one;
  short = h.short;
  only = each s.expiring safe.expiring h.only;
}
  where
    each :
        (es : List Expiring)
        → All (IsPending s.db.next_id s.started) es
        → All (IsOnly s.db.attempts) es
        → All (IsOnly after.attempts) es
    each [] pending only = tt
    each (e ∷ es) pending only = (
      Evolves-IsOnly requeues s.db after v safe.tables.attempts.runs_below e pending.0.0 only.0,
      each es pending.1 only.1,
    )

-- The first attempt of a run that had none.
module _ (clock : ℕ → ℕ) (now : ℕ) (t : Started) (s : State) (safe : IsSafe s) (h : IsAlone s)
    (m : Memᴰ t s.started) where
  abbrev first : Database
  first = create_first_attempt clock t.job t.run_id now s.db

  none_yet : All (λ a. of_run t.run_id a ≡ false) s.db.attempts
  none_yet = (All-of_Memᴰ (IsStarted s.db) t s.started safe.started m).1

  first-AllOne : AllOne first.attempts
  unfolding create_first_attempt new_attempt
  first-AllOne =
      AllOne-insert s.db.attempts _
        (λ a ma ha same.
          absurd (
            other a same
              (All-of_Memᴰ (λ b. of_run t.run_id b ≡ false) a s.db.attempts none_yet ma)))
        h.one
    where
      other : (a : JobAttempt) → a.job_run_id ≡ t.run_id → of_run t.run_id a ≡ false → ⊥
      other a same e = ground (arith, (==_iff a.job_run_id t.run_id).1 same, e)

  first-IsOnly :
      (e : Expiring)
      → of_run t.run_id e.row ≡ false
      → IsOnly s.db.attempts e
      → IsOnly first.attempts e
  unfolding create_first_attempt new_attempt
  first-IsOnly e apart k = record {
    active = λ a ma ha same. elim (Memᴰ-of_insert _ s.db.attempts a ma) [
      | inl there ↦ k.active a there ha same
      | inr q ↦ absurd (clash (sym (ap (λ (x : JobAttempt). x.job_run_id) q) ∙ same))
    ];
    counted = λ n q.
        rw (count-insert (of_run e.row.job_run_id) _ s.db.attempts)
          (ground (arith, k.counted n q, flip));
  }
    where
      clash : t.run_id ≡ e.row.job_run_id → ⊥
      clash q = ground (arith, apart, (==_iff t.run_id e.row.job_run_id).1 q)

      flip : (t.run_id == e.row.job_run_id) ≡ false
      flip = ground (arith, apart)

  starts-IsAlone : IsAlone (record s {
    db = try_first_attempt clock t.job t.run_id now s.db;
    started = delete (λ u. u.run_id == t.run_id) s.started;
  })
  starts-IsAlone = elim (try_first_attempt-cases clock now t s.db) [
    | inl e ↦ record { one = rw e h.one; short = h.short; only = rw e h.only }
    | inr (run, job, e) ↦ record {
      one = rw e first-AllOne;
      short = h.short;
      only = rw e (each s.expiring safe.expiring h.only);
    }
  ]
    where
      each :
          (es : List Expiring)
          → All (IsPending s.db.next_id s.started) es
          → All (IsOnly s.db.attempts) es
          → All (IsOnly first.attempts) es
      each [] pending only = tt
      each (e ∷ es) pending only = (
        first-IsOnly e (All-of_Memᴰ (λ u. of_run u.run_id e.row ≡ false) t s.started pending.0.1 m)
            only.0,
        each es pending.1 only.1,
      )

-- The commit of the only transaction.
module _ (clock : ℕ → ℕ) (now total : ℕ) (job : Job) (e : Expiring) (db : Database)
    (below : All (λ a. a.job_run_id < db.next_id) db.attempts) (k : IsOnly db.attempts e) where
  ended-Evolves : Evolves false db.next_id db.attempts (timed_out_in e.row now db)
  unfolding timed_out_at
  ended-Evolves =
      Evolves-update false db.next_id db.attempts (λ a. a.id == e.row.id) (timed_out_at now) _ refl
        (omega arith) (λ a m h. record { id = refl; run = refl; number = refl; status = refl })

  committed-AllOne :
      (after : Database)
      → IsCommitted clock e.row total job now db after
      → AllOne db.attempts
      → AllOne after.attempts
  unfolding new_attempt
  committed-AllOne after (rolled_back q) one = rw q one
  committed-AllOne after (ended q) one =
      rw q (Evolves-AllOne false db (timed_out_in e.row now db) ended-Evolves below one)
  committed-AllOne after (retried few run known q) one = rw q (
      AllOne-insert _ _ (timed_out-idle db.attempts e now k)
        (Evolves-AllOne false db (timed_out_in e.row now db) ended-Evolves below one))

-- Every step that one scheduler may take.
pub Step-IsAlone : {s t : State} (step : Step s t) → Alone step → IsSafe s → IsAlone s → IsAlone t
unfolding mark_dead_workers mark_worker_dead
Step-IsAlone {s} (ticks c o clock locked now) alone safe h =
    grows false s _ safe h (tick-Evolves false s.db c o clock locked now)
Step-IsAlone {s} (publishes o env session locked now) alone safe h =
    grows false s _ safe h (publish-Evolves false s.db o env session locked now)
Step-IsAlone {s} (registers worker_id hostname now created_at) alone safe h =
    grows false s _ safe h (register-Evolves false s.db worker_id hostname now created_at)
Step-IsAlone {s} (beats worker_id now) alone safe h =
    grows false s _ safe h (send_heartbeat-Evolves false s.db worker_id now)
Step-IsAlone {s} (posts_job c cal refused checked now created_at d) alone safe h =
    grows false s _ safe h (post_job-Evolves false s.db c cal refused checked now created_at d)
Step-IsAlone {s} (patches_job c cal refused checked now saved_at d job m) alone safe h =
    grows false s _ safe h
      (patch_found-Evolves false s.db c cal refused checked now saved_at d (some job))
Step-IsAlone {s} (deletes_job now job m) alone safe h =
    grows false s _ safe h (delete_found-Evolves false s.db now (some job))
Step-IsAlone {s} (resets message timeout now) alone safe h =
    grows true s _ safe h (reset_attempts-Evolves s.db message timeout now)
Step-IsAlone {s} (resets_runs timeout now) alone safe h =
    grows false s _ safe h (reset_runs-Evolves false s.db timeout now)
Step-IsAlone {s} (cleans days now) alone safe h =
    grows false s _ safe h (delete_old_attempts-Evolves false s.db days now)
Step-IsAlone {s} (cleans_runs days now) alone safe h =
    grows false s _ safe h (delete_old_runs-Evolves false s.db days now)
Step-IsAlone {s} (looks attempt_id now row q due) alone safe h = record {
  one = h.one;
  short = rw alone (omega arith);
  only = (
    record { active = λ a m ha same. looked a m ha same; counted = λ n z. absurd (none_some n z) },
    h.only,
  );
}
  where
    found : (attempt_is_running row.status && is_lease_over now row.lease_expires_at) ≡ true
    found = due

    there : Memᴰ row s.db.attempts
    there = (find?-eq-some (λ a. a.id == attempt_id) s.db.attempts row q).1

    live : attempt_is_active row.status ≡ true
    live = ground (arith, due)

    looked :
        (a : JobAttempt)
        → Memᴰ a s.db.attempts
        → attempt_is_active a.status ≡ true
        → a.job_run_id ≡ row.job_run_id
        → a.id ≡ row.id
    looked a m ha same = h.one a row m there ha live same

    none_some : (n : ℕ) → none ≡ some n → ⊥
    none_some n z = cc
Step-IsAlone {s} (counts e before after q) alone safe h =
    let (mine, rest) =
      All-without (IsOnly s.db.attempts) before e after
        (subst (All (IsOnly s.db.attempts)) q h.only) in
    record {
      one = h.one;
      short = omega (
        arith,
        h.short,
        ap length q,
        length-without before e after,
        length-without before _ after,
      );
      only =
          All-with (IsOnly s.db.attempts) before _ after
            (record { active = mine.active; counted = λ n z. omega (arith, some-injective _ _ z) })
            rest;
    }
Step-IsAlone {s} (expires clock now total job e before after q counted m same) alone safe h =
    let (mine, rest) =
      All-without (IsOnly s.db.attempts) before e after
        (subst (All (IsOnly s.db.attempts)) q h.only) in
    let gone : before ++ after ≡ [] =
      nil-of_length (before ++ after)
        (omega (arith, h.short, ap length q, length-without before e after)) in
    record {
      one =
          committed-AllOne clock now total job e s.db safe.tables.attempts.runs_below mine _
            (commit_expiry-IsCommitted clock e.row total job now s.db) h.one;
      short = rw gone (omega arith);
      only = rw gone tt;
    }
Step-IsAlone {s} (gives_up e before after q) alone safe h = record {
  one = h.one;
  short = omega (arith, h.short, ap length q, length-without before e after);
  only =
      (All-without (IsOnly s.db.attempts) before e after
        (subst (All (IsOnly s.db.attempts)) q h.only)).1;
}
Step-IsAlone {s} (judges_open run) alone safe h = record {
  one = h.one;
  short = h.short;
  only = h.only;
}
Step-IsAlone {s} (saves now v before after e) alone safe h =
    unfold finish_run in record { one = h.one; short = h.short; only = h.only }
Step-IsAlone {s} (sweeps now) alone safe h = record { one = h.one; short = h.short; only = h.only }
Step-IsAlone {s} (claims o locked queried now worker_id) alone safe h =
    let g =
      grows false s _ safe h
        (claim_attempt-Evolves false s.db safe.tables o locked queried now worker_id) in
    record { one = g.one; short = g.short; only = g.only }
Step-IsAlone {s} (stops worker_id) alone safe h = record {
  one = h.one;
  short = h.short;
  only = h.only;
}
Step-IsAlone {s} (reports attempt future now m) alone safe h = grows false s _ safe h (
    reported-Evolves false s.db safe.tables attempt future now
      (All-of_Memᴰ (λ a. a.fencing_token ≡ 1) attempt s.handed safe.tokens m))
Step-IsAlone {s} (judges attempt m) alone safe h = record {
  one = h.one;
  short = h.short;
  only = h.only;
}
Step-IsAlone {s} (triggers clock job now m active) alone safe h =
    let g = grows false s _ safe h (create_run-Evolves clock job now s.db) in
    record { one = g.one; short = g.short; only = g.only }
Step-IsAlone {s} (queues_first clock t now m) alone safe h = starts-IsAlone clock now t s safe h m
Step-IsAlone {s} (reads_job job m) alone safe h = record {
  one = h.one;
  short = h.short;
  only = h.only;
}

pub ReachAlone-IsAlone : (jobs : List Job) (s : State) → ReachAlone (start jobs) s → IsAlone s
ReachAlone-IsAlone jobs s here = record {
  one = λ a b m. elim m [ ];
  short = omega arith;
  only = tt;
}
ReachAlone-IsAlone jobs s (next {t} r step alone) =
    Step-IsAlone step alone (Reach-IsSafe (start-IsSafe jobs) (Reach-of_alone r))
      (ReachAlone-IsAlone jobs t r)
