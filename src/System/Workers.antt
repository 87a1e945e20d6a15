-- ===== src/System/Workers.antt =====
-- The workers' operations keep the tables in order.
use job_schedular.Base.{
  ℕ, ◌≡◌, refl, sym, ap, ◌∙◌, subst, inl, inr, Bool, true, some, String, Memᴰ, arith, ◌==◌,
  All-of_Memᴰ, if_ind, str_eq, ==-refl,
}
use mathlib.Core.Option.{some-injective}
use job_schedular.Table.Rows.{Memᴰ-update}
use job_schedular.Table.{exists, update}
use job_schedular.OrderBy.{OrderBy}
use job_schedular.Models.{JobAttempt, Database}
use job_schedular.Models.Status.{RunStatus, attempt_is_queued}
use job_schedular.Worker.Claim.{EarlierFirst, is_still_queued, claimed_by, claim_attempt}
use job_schedular.Worker.Claim.Laws.{claim_attempt-ClaimsBest, claimable-queued}
use job_schedular.Worker.Heartbeat.{is_extendable, extended_to, send_heartbeat, register_worker}
use job_schedular.Worker.Executor.{Future}
use job_schedular.Worker.Main.{
  passes_fence, finished_with, finish_run, settle_run, update_run_status, result_of, reported,
}
use job_schedular.System.Attempts.{is_sound}
use job_schedular.System.Tables.{TablesOk-update_attempts, TablesOk-update_runs, Ok}

-- A sound row that is queued has token 0.
pub token_of_queued :
    (a : JobAttempt) → is_sound a ≡ true → attempt_is_queued a.status ≡ true → a.fencing_token ≡ 0
token_of_queued a s q = ground arith

claimed-Ok :
    (worker_id : String) (now : ℕ) (a : JobAttempt) (db : Database)
    → a.fencing_token ≡ 0
    → Ok db
    → Ok (record db {
      attempts =
          update (is_still_queued a.id) (claimed_by worker_id now a.fencing_token) db.attempts;
    })
unfolding claimed_by
claimed-Ok worker_id now a db zero_token ok =
    TablesOk-update_attempts ok (is_still_queued a.id) (claimed_by worker_id now a.fencing_token)
      (λ b. refl) (λ b. refl) (λ b. refl) (λ b m s e. ground arith)

module _ (o : OrderBy EarlierFirst) (locked : ℕ → Bool) (queried now : ℕ) (worker_id : String)
    (db : Database) (ok : Ok db) where
  pub claim_attempt-Ok : Ok (claim_attempt o locked queried now worker_id db).0
  claim_attempt-Ok =
      elim (claim_attempt-ClaimsBest o locked queried now worker_id db ok.attempts.unique_ids) [
        | inl (_, e) ↦ rw e ok
        | inr (a, m, claimable, _, e) ↦ rw e (
            claimed-Ok worker_id now a db
              (token_of_queued a
                (All-of_Memᴰ (λ b. is_sound b ≡ true) a db.attempts ok.attempts.sound m)
                (claimable-queued locked queried a claimable))
              ok)
      ]

pub send_heartbeat-Ok :
    (worker_id : String) (now : ℕ) (db : Database) → Ok db → Ok (send_heartbeat worker_id now db).0
unfolding send_heartbeat extended_to
send_heartbeat-Ok worker_id now db ok =
    TablesOk-update_attempts ok (is_extendable worker_id now) (extended_to now) (λ b. refl)
      (λ b. refl) (λ b. refl) (λ b m s e. ground arith)

pub finish_run-Ok :
    (status : RunStatus) (now run_id : ℕ) (db : Database)
    → Ok db
    → Ok (finish_run status now run_id db)
unfolding finish_run
finish_run-Ok status now run_id db ok = TablesOk-update_runs ok (λ r. r.id == run_id) _ (λ r. refl)

settle_run-Ok : (now run_id : ℕ) (db : Database) → Ok db → Ok (settle_run now run_id db)
unfolding settle_run
settle_run-Ok now run_id db ok = ground (
  arith,
  finish_run-Ok RunStatus.success now run_id db ok,
  finish_run-Ok RunStatus.permanently_failed now run_id db ok,
)

pub update_run_status-Ok :
    (now run_id : ℕ) (db : Database) → Ok db → Ok (update_run_status now run_id db).0
unfolding update_run_status
update_run_status-Ok now run_id db ok = ground (arith, settle_run-Ok now run_id db ok)

-- A report writes only a row that has the token of a claim.
pub reported-Ok :
    (attempt : JobAttempt) (future : Future) (now : ℕ) (db : Database)
    → attempt.fencing_token ≡ 1
    → Ok db
    → Ok (reported attempt future now db)
unfolding finished_with
reported-Ok attempt future now db one ok =
    TablesOk-update_attempts ok (passes_fence attempt) (finished_with (result_of future) now)
      (λ b. ground arith) (λ b. ground arith) (λ b. ground arith) (λ b m s e. ground arith)

pub register_worker-Ok :
    (worker_id hostname : String) (now created_at : ℕ) (db : Database)
    → Ok db
    → Ok (register_worker worker_id hostname now created_at db).0
unfolding register_worker
register_worker-Ok worker_id hostname now created_at db ok =
    if_ind (λ (r : Database × Bool). Ok r.0) (exists (λ w. str_eq w.id worker_id) db.workers) _ _ ok
      ok

token_one :
    (a c : JobAttempt) (worker_id : String) (now : ℕ)
    → a.fencing_token ≡ 0
    → claimed_by worker_id now a.fencing_token a ≡ c
    → c.fencing_token ≡ 1
unfolding claimed_by
token_one a c worker_id now z e = ground arith

-- In tables in order, a claim hands out a row that is now in the table, with token 1.
pub claim_attempt-Handed :
    (o : OrderBy EarlierFirst) (locked : ℕ → Bool) (queried now : ℕ) (worker_id : String)
    (db : Database) (c : JobAttempt)
    → Ok db
    → (claim_attempt o locked queried now worker_id db).1 ≡ some c
    → Memᴰ c (claim_attempt o locked queried now worker_id db).0.attempts × (c.fencing_token ≡ 1)
claim_attempt-Handed o locked queried now worker_id db c ok e =
    elim (claim_attempt-ClaimsBest o locked queried now worker_id db ok.attempts.unique_ids) [
      | inl (_, q) ↦ absurd (cc (ap (λ r. r.1) q, e))
      | inr (a, m, claimable, _, q) ↦
          let queued = claimable-queued locked queried a claimable in
          let same : claimed_by worker_id now a.fencing_token a ≡ c =
            some-injective _ _ (sym (ap (λ r. r.1) q) ∙ e) in
          (
            subst (λ d. Memᴰ c d.attempts) (sym (ap (λ r. r.0) q))
                (subst
                  (λ x. Memᴰ x (
                    update (is_still_queued a.id) (claimed_by worker_id now a.fencing_token)
                      db.attempts))
                  same
                  (Memᴰ-update (is_still_queued a.id) (claimed_by worker_id now a.fencing_token)
                    db.attempts a m (ground (arith, ==-refl a.id)))),
            token_one a c worker_id now
                (token_of_queued a
                  (All-of_Memᴰ (λ b. is_sound b ≡ true) a db.attempts ok.attempts.sound m) queued)
                same,
          )
    ]
