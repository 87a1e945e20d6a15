-- ===== src/Worker/Heartbeat/Leases.antt =====
-- What a heartbeat protects.
use job_schedular.Base.{
  ℕ, ◌+◌, ◌*◌, ◌≤◌, ◌≡◌, refl, ap, not, false, Bool, ◌&&◌, List, [], ◌∷◌, String, arith, Bool-cases,
  inl, inr,
}
use job_schedular.Table.{select, update}
use job_schedular.Models.{JobAttempt, Database, second}
use job_schedular.Models.Status.{attempt_is_running}
use job_schedular.Worker.Claim.{lease_duration_seconds}
use job_schedular.Worker.Heartbeat.{
  lease_lt, is_extendable, extended_to, send_heartbeat, find_expired_leases,
}

abbrev is_expired_at : ℕ → JobAttempt → Bool
is_expired_at t a = attempt_is_running a.status && lease_lt t a.lease_expires_at

module _ (worker_id : String) (now t : ℕ) (soon : t ≤ now + lease_duration_seconds * second) where
  extended_valid : (x : JobAttempt) → is_expired_at t (extended_to now x) ≡ false
  unfolding extended_to
  extended_valid x = ground arith

  expired-extended :
      (xs : List JobAttempt)
      → select (is_expired_at t) (update (is_extendable worker_id now) (extended_to now) xs)
        ≡ select (λ a. not (is_extendable worker_id now a)) (select (is_expired_at t) xs)
  unfolding select update extended_to
  expired-extended [] = refl
  expired-extended (x ∷ xs) = elim (Bool-cases (is_extendable worker_id now x)) [
    | inl e ↦
        rw (e, extended_valid x)
          (elim (Bool-cases (is_expired_at t x)) [
            | inl d ↦ rw d (rw e (expired-extended xs))
            | inr d ↦ rw d (expired-extended xs)
          ])
    | inr e ↦ rw e (elim (Bool-cases (is_expired_at t x)) [
      | inl d ↦ rw d (rw e (ap (◌∷◌ x) (expired-extended xs)))
      | inr d ↦ rw d (expired-extended xs)
    ])
  ]

-- After a heartbeat, and as long as the new leases last (45 seconds), the expired leases are those that
-- would be expired without it, except for the attempts that its worker held under a lease.
pub send_heartbeat_protects :
    (worker_id : String) (now t : ℕ) (db : Database)
    → t ≤ now + lease_duration_seconds * second
    → find_expired_leases t (send_heartbeat worker_id now db).0
      ≡ select (λ a. not (is_extendable worker_id now a)) (find_expired_leases t db)
unfolding send_heartbeat find_expired_leases
send_heartbeat_protects worker_id now t db soon = expired-extended worker_id now t soon db.attempts
