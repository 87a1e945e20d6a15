-- ===== src/System/Handed.antt =====
-- How often an attempt is handed to a worker.
pub mod Often
use job_schedular.Base.{
  ℕ, ◌≡◌, refl, sym, subst, ap, ◌∙◌, ◌⊎◌, inl, inr, Bool, true, Option, none, some, List, ◌∷◌,
  String, Memᴰ, arith, ◌==◌, ==-refl, All-of_Memᴰ,
}
use mathlib.Core.Option.{some-injective}
use job_schedular.OrderBy.{OrderBy}
use job_schedular.Models.{JobAttempt, Database}
use job_schedular.Models.Status.{attempt_is_queued, attempt_is_running}
use job_schedular.Table.{update}
use job_schedular.Worker.Claim.{EarlierFirst, is_still_queued, claimed_by, claim_attempt}
use job_schedular.Worker.Claim.Laws.{claim_attempt-ClaimsBest, claimable-queued}
use job_schedular.System.Tables.{Ok}
use job_schedular.System.Workers.{claim_attempt-Handed}
use job_schedular.System.Steps.{State, Step, hand_over}
use job_schedular.System.Steps.Safe.{IsSafe}

-- One more attempt is handed out: a row that was QUEUED and is RUNNING now.
pub record IsHandedOut (s t : State) (c : JobAttempt) : Type 0 where
  pub handed : t.handed ≡ c ∷ s.handed
  pub before : JobAttempt
  pub there : Memᴰ before s.db.attempts
  pub same_id : before.id ≡ c.id
  pub queued : attempt_is_queued before.status ≡ true
  pub now_there : Memᴰ c t.db.attempts
  pub running : attempt_is_running c.status ≡ true

abbrev pub Hands : State → State → Type 0
Hands s t = (t.handed ≡ s.handed) ⊎ ((c : JobAttempt) × IsHandedOut s t c)

module _ (a c : JobAttempt) (worker_id : String) (now : ℕ)
    (same : claimed_by worker_id now a.fencing_token a ≡ c) where
  claimed_id : a.id ≡ c.id
  unfolding claimed_by
  claimed_id = ap (λ x. x.id) same

  claimed_running : attempt_is_running c.status ≡ true
  unfolding claimed_by
  claimed_running = subst (λ x. attempt_is_running x.status ≡ true) same refl

claim-Hands :
    (o : OrderBy EarlierFirst) (locked : ℕ → Bool) (queried now : ℕ) (worker_id : String)
    (s : State)
    → IsSafe s
    → (c : Option JobAttempt) → (claim_attempt o locked queried now worker_id s.db).1 ≡ c
    → Hands s (record s {
      db = (claim_attempt o locked queried now worker_id s.db).0;
      handed = hand_over c s.handed;
    })
claim-Hands o locked queried now worker_id s safe none e = inl refl
claim-Hands o locked queried now worker_id s safe (some c) e =
    elim (claim_attempt-ClaimsBest o locked queried now worker_id s.db
      safe.tables.attempts.unique_ids) [
        | inl (_, q) ↦ absurd (cc (ap (λ r. r.1) q, e))
        | inr (a, m, claimable, _, q) ↦
            let same : claimed_by worker_id now a.fencing_token a ≡ c =
              some-injective _ _ (sym (ap (λ r. r.1) q) ∙ e) in
            inr (
              c,
              record {
                handed = refl;
                before = a;
                there = m;
                same_id = claimed_id a c worker_id now same;
                queued = claimable-queued locked queried a claimable;
                now_there =
                    (claim_attempt-Handed o locked queried now worker_id s.db c safe.tables e).0;
                running = claimed_running a c worker_id now same;
              },
            )
      ]

-- A step hands out one attempt or none.
pub Step-Hands : {s t : State} → Step s t → IsSafe s → Hands s t
Step-Hands {s} (Step.claims o locked queried now worker_id) h =
    claim-Hands o locked queried now worker_id s h _ refl
Step-Hands (Step.ticks c o clock locked now) h = inl refl
Step-Hands (Step.publishes o env session locked now) h = inl refl
Step-Hands (Step.looks attempt_id now row e due) h = inl refl
Step-Hands (Step.counts e before after q) h = inl refl
Step-Hands (Step.expires clock now total job e before after q counted m same) h = inl refl
Step-Hands (Step.gives_up e before after q) h = inl refl
Step-Hands (Step.judges_open run) h = inl refl
Step-Hands (Step.saves now v before after e) h = inl refl
Step-Hands (Step.sweeps now) h = inl refl
Step-Hands (Step.registers worker_id hostname now created_at) h = inl refl
Step-Hands (Step.beats worker_id now) h = inl refl
Step-Hands (Step.stops worker_id) h = inl refl
Step-Hands (Step.reports attempt future now m) h = inl refl
Step-Hands (Step.judges attempt m) h = inl refl
Step-Hands (Step.triggers clock job now m active) h = inl refl
Step-Hands (Step.queues_first clock t now m) h = inl refl
Step-Hands (Step.posts_job c cal refused checked now created_at d) h = inl refl
Step-Hands (Step.reads_job job m) h = inl refl
Step-Hands (Step.patches_job c cal refused checked now saved_at d job m) h = inl refl
Step-Hands (Step.deletes_job now job m) h = inl refl
Step-Hands (Step.resets message timeout now) h = inl refl
Step-Hands (Step.resets_runs timeout now) h = inl refl
Step-Hands (Step.cleans days now) h = inl refl
Step-Hands (Step.cleans_runs days now) h = inl refl
