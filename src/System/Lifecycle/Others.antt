-- ===== src/System/Lifecycle/Others.antt =====
-- The other operations leave the attempts as they are.
use job_schedular.Base.{
  ℕ, refl, sym, subst, inl, inr, Bool, not, false, Option, none, some, List, [], ◌∷◌, arith, if_ind,
  String, str_eq,
}
use job_schedular.Models.{OutboxEvent, Job, Database}
use job_schedular.Table.{exists}
use job_schedular.OrderBy.{OrderBy}
use job_schedular.Worker.Heartbeat.{register_worker}
use job_schedular.Scheduler.Tick.{Calendar}
use job_schedular.Scheduler.Rabbitmq.{Message}
use job_schedular.Scheduler.Publisher.{Delivery, Session, OldestFirst, publish_pending_events}
use job_schedular.Api.Jobs.{delete_found}
use job_schedular.Api.Serializer.{JobData, JobError, Checks, serializer_errors}
use job_schedular.Api.Save.{SaveResult, http_400, insert_job, create_job, post_job, patch_found}
use job_schedular.Api.Save.Changed.{IsUpdate, patch_found-IsUpdate}
use job_schedular.System.Lifecycle.{Evolves-same}
use job_schedular.System.Lifecycle.Parts.{Grows, same}

module _ (requeues : Bool) (db : Database) where
  pub publish-Evolves :
      (o : OrderBy OldestFirst) (env : OutboxEvent → Delivery) (session : Session)
      (locked : ℕ → Bool) (now : ℕ)
      → Grows requeues db (publish_pending_events o env session locked now db).0
  unfolding publish_pending_events
  publish-Evolves o env session locked now =
      if_ind (λ (r : Database × List Message × ℕ). Grows requeues db r.0) (not session.connected) _
        _ (same requeues db)
        (if_ind (λ (r : Database × List Message × ℕ). Grows requeues db r.0) session.commits _ _
          (Evolves-same requeues db _ refl (omega arith)) (same requeues db))

  pub register-Evolves :
      (worker_id hostname : String) (now created_at : ℕ)
      → Grows requeues db (register_worker worker_id hostname now created_at db).0
  unfolding register_worker
  register-Evolves worker_id hostname now created_at =
      if_ind (λ (r : Database × Bool). Grows requeues db r.0)
        (exists (λ w. str_eq w.id worker_id) db.workers) _ _
        (Evolves-same requeues db _ refl (omega arith))
        (Evolves-same requeues db _ refl (omega arith))

  pub delete_found-Evolves :
      (now : ℕ) (job : Option Job) → Grows requeues db (delete_found now db job).0
  unfolding delete_found
  delete_found-Evolves now none = same requeues db
  delete_found-Evolves now (some job) = Evolves-same requeues db _ refl (omega arith)

  pub post_job-Evolves :
      (c : Checks) (cal : Calendar) (refused : List JobError) (checked now created_at : ℕ)
      (d : JobData)
      → Grows requeues db (post_job c cal refused checked now created_at d db).0
  unfolding post_job create_job
  post_job-Evolves c cal refused checked now created_at d =
      by_errors (serializer_errors c false refused none checked db d)
    where
      inserted :
          (job : Job) (next : Option (Option ℕ)) → Grows requeues db (insert_job job next db).0
      inserted job none = unfold insert_job in same requeues db
      inserted job (some next) = unfold insert_job in Evolves-same requeues db _ refl (omega arith)

      by_errors :
          (es : List JobError)
          → Grows requeues db
              (elim es as (λ _. Database × SaveResult) [
                | [] ↦ create_job cal now created_at d db
                | e ∷ es ↦ (db, http_400 (e ∷ es))
              ]).0
      by_errors [] = inserted _ _
      by_errors (e ∷ es) = same requeues db

  pub patch_found-Evolves :
      (c : Checks) (cal : Calendar) (refused : List JobError) (checked now saved_at : ℕ)
      (d : JobData) (old : Option Job)
      → Grows requeues db (patch_found c cal refused checked now saved_at d db old).0
  patch_found-Evolves c cal refused checked now saved_at d old =
      patched old _ (patch_found-IsUpdate c cal refused checked now saved_at d db old)
    where
      patched :
          (old : Option Job) (r : Database × SaveResult)
          → IsUpdate cal now saved_at d db old r
          → Grows requeues db r.0
      patched old r (inl e) = subst (Grows requeues db) (sym e.0) (same requeues db)
      patched old r (inr (job, new, found, e, changed)) =
          subst (λ (x : Database × SaveResult). Grows requeues db x.0) (sym e)
            (Evolves-same requeues db _ refl (omega arith))
