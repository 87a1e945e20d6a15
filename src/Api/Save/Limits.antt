-- ===== src/Api/Save/Limits.antt =====
-- The retry limits that the endpoints write.
use job_schedular.Base.{
  ℕ, ◌≤◌, ◌≡◌, inl, inr, Bool, true, Option, none, some, List, [], ◌∷◌, arith, ◌==◌, List-cases,
  if_ind, All, All-append,
}
use job_schedular.Table.Rows.{All-update}
use job_schedular.Models.{Job, Database}
use job_schedular.Models.Status.{BackoffType}
use job_schedular.Scheduler.Tick.{Calendar}
use job_schedular.Api.Serializer.{
  RetryData, JobData, JobError, Checks, out_of_range, unless, in_range, check_required,
  check_optional, validate_name, validate_handler, validate_cron_expression, validate_timezone,
  validate_retry_policy, field_errors, serializer_errors,
}
use job_schedular.Api.Serializer.Fields.{append-eq_nil, unless-nil, serializer_errors-nil}
use job_schedular.Api.Save.{
  Policy, no_policy, key_error, policy, is_empty_policy, all_keys, policy_of, with_policy,
  with_fields, save_job, update_with, update_job, patch_found, post_job,
}
use job_schedular.Api.Save.Created.{post_job-IsCreation}

-- No job allows more than ten attempts.
abbrev pub AllLimited : List Job → Type 0
AllLimited jobs = All (λ j. j.retry_limit ≤ 10) jobs

pub post_job-AllLimited :
    (c : Checks) (cal : Calendar) (refused : List JobError) (checked now created_at : ℕ)
    (d : JobData) (db : Database)
    → AllLimited db.jobs
    → AllLimited (post_job c cal refused checked now created_at d db).0.jobs
post_job-AllLimited c cal refused checked now created_at d db all =
    elim (post_job-IsCreation c cal refused checked now created_at d db) [
      | inl (same, _) ↦ rw same all
      | inr (job, same, good, _) ↦
          rw same
            (All-append (λ j. j.retry_limit ≤ 10) db.jobs (job ∷ []) all (good.retry_limit.1, tt))
    ]

-- The check of the policy is one of the checks of the fields, in a partial validation too.
policy-nil :
    (c : Checks) (partial : Bool) (instance_id : Option ℕ) (db : Database) (d : JobData)
    → field_errors c partial instance_id db d ≡ []
    → check_optional validate_retry_policy d.retry_policy ≡ []
unfolding field_errors
policy-nil c partial instance_id db d h =
    let r1 =
      (append-eq_nil (check_required partial "name" (validate_name instance_id db) d.name) _ h).1 in
    let r2 = (append-eq_nil (check_required partial "description" _ d.description) _ r1).1 in
    let r3 = (append-eq_nil (check_required partial "schedule_type" _ d.schedule_type) _ r2).1 in
    let r4 =
      (append-eq_nil (check_optional (validate_cron_expression c) d.cron_expression) _ r3).1 in
    let r5 = (append-eq_nil (check_optional (validate_timezone c) d.timezone) _ r4).1 in
    let r6 = (append-eq_nil (check_optional _ d.timeout_seconds) _ r5).1 in
    (append-eq_nil (check_required partial "handler" (validate_handler c) d.handler) _ r6).1

patched_limit :
    (rp : Option RetryData) (d : JobData) (job : Job)
    → check_optional validate_retry_policy rp ≡ []
    → job.retry_limit ≤ 10
    → (with_fields d (with_policy (policy_of true rp) job)).retry_limit ≤ 10
unfolding with_fields with_policy policy_of is_empty_policy validate_retry_policy
patched_limit none d job h small = small
patched_limit (some r) d job h small =
    if_ind (λ (p : Policy). (with_fields d (with_policy p job)).retry_limit ≤ 10)
      (is_empty_policy r) _ _ small
      (keyed r.max_attempts r.backoff r.base_delay_seconds
        (append-eq_nil (check_optional _ r.max_attempts) _ h).0)
  where
    keyed :
        (n : Option ℕ) (b : Option BackoffType) (s : Option ℕ)
        → check_optional (λ m. unless (in_range 1 10 m) (out_of_range "max_attempts")) n ≡ []
        → (with_fields d (with_policy (all_keys n b s) job)).retry_limit ≤ 10
    keyed none b s e = small
    keyed (some n) none s e = small
    keyed (some n) (some b) none e = small
    keyed (some n) (some b) (some s) e =
        let fits = unless-nil (in_range 1 10 n) (out_of_range "max_attempts") e in ground arith

save_job-AllLimited :
    (saved_at : ℕ) (job : Job) (next : Option (Option ℕ)) (db : Database)
    → job.retry_limit ≤ 10
    → AllLimited db.jobs
    → AllLimited (save_job saved_at job next db).0.jobs
unfolding save_job
save_job-AllLimited saved_at job none db small all = all
save_job-AllLimited saved_at job (some next) db small all =
    All-update (λ j. j.retry_limit ≤ 10) (λ j. j.id == job.id) _ (λ j h e. small) db.jobs all

pub patch_found-AllLimited :
    (c : Checks) (cal : Calendar) (refused : List JobError) (checked now saved_at : ℕ) (d : JobData)
    (db : Database) (job : Job)
    → job.retry_limit ≤ 10
    → AllLimited db.jobs
    → AllLimited (patch_found c cal refused checked now saved_at d db (some job)).0.jobs
unfolding patch_found update_job
patch_found-AllLimited c cal refused checked now saved_at d db job small all =
    elim (List-cases (serializer_errors c true refused (some job.id) checked db d)) [
      | inr (x, xs, q) ↦ rw (q, patch_found) all
      | inl clean ↦
          rw (clean, patch_found)
            (updated (policy_of true d.retry_policy) (
              patched_limit d.retry_policy d job
                (policy-nil c true (some job.id) db d
                  (serializer_errors-nil c true refused (some job.id) checked db d clean).0)
                small))
    ]
  where
    updated :
        (p : Policy)
        → (with_fields d (with_policy p job)).retry_limit ≤ 10
        → AllLimited (update_with cal now saved_at d job db p).0.jobs
    updated key_error h = unfold update_with in all
    updated no_policy h = unfold update_with in save_job-AllLimited saved_at _ _ db h all
    updated (policy n b s) h = unfold update_with in save_job-AllLimited saved_at _ _ db h all
