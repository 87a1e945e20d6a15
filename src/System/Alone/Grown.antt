-- ===== src/System/Alone/Grown.antt =====
-- What the other operations do to the run of an attempt that is about to time out.
use job_schedular.Base.{
  ℕ, suc, ◌≤◌, ◌<◌, ◌≡◌, refl, sym, ◌∙◌, inl, inr, Bool, true, List, [], ◌∷◌, ◌++◌, Memᴰ, arith,
  length, ◌==◌, ◌⊎◌, ap, subst, false, ==_iff, All, All-of_Memᴰ,
}
use job_schedular.Table.{update, insert}
use job_schedular.Table.Rows.{Memᴰ-of_update}
use job_schedular.Models.{JobAttempt, Database}
use job_schedular.Models.Status.{attempt_is_active}
use job_schedular.Scheduler.Watchdog.{timed_out_at}
use job_schedular.Scheduler.Watchdog.Transaction.{Expiring}
use job_schedular.System.Lifecycle.{OfRun, Evolves}
use job_schedular.System.Alone.{AllOne, IsOnly}

pub length-without :
    {A : Type 0} (before : List A) (e : A) (after : List A)
    → length (before ++ e ∷ after) ≡ suc (length (before ++ after))
length-without [] e after = refl
length-without (x ∷ before) e after = ground (arith, length-without before e after)

pub nil-of_length : {A : Type 0} (xs : List A) → length xs ≤ 0 → xs ≡ []
nil-of_length [] h = refl
nil-of_length (x ∷ xs) h = absurd (omega (arith, h))

module _ (requeues : Bool) (db after : Database) (v : Evolves requeues db.next_id db.attempts after)
    (below : All (λ a. a.job_run_id < db.next_id) db.attempts) where
  origin : (b : JobAttempt) → Memᴰ b after.attempts → OfRun db.next_id db.attempts b
  origin b m = All-of_Memᴰ (OfRun db.next_id db.attempts) b after.attempts v.runs m

  run_below : (a : JobAttempt) → Memᴰ a db.attempts → a.job_run_id < db.next_id
  run_below a m = All-of_Memᴰ (λ x. x.job_run_id < db.next_id) a db.attempts below m

  pub Evolves-AllOne : AllOne db.attempts → AllOne after.attempts
  Evolves-AllOne one b c mb mc hb hc same = from (origin b mb) (origin c mc)
    where
      from : OfRun db.next_id db.attempts b → OfRun db.next_id db.attempts c → b.id ≡ c.id
      from (inl new) (inl new') = omega (arith, new.1, new'.1, same)
      from (inl new) (inr (a, m, k)) = absurd (omega (arith, new.0, same, k.run, run_below a m))
      from (inr (a, m, k)) (inl new) = absurd (omega (arith, new.0, same, k.run, run_below a m))
      from (inr (a, m, k)) (inr (a', m', k')) =
          k.id ∙ one a a' m m' (k.active hb) (k'.active hc) (sym k.run ∙ same ∙ k'.run) ∙ sym k'.id

  pub Evolves-IsOnly :
      (e : Expiring)
      → e.row.job_run_id < db.next_id
      → IsOnly db.attempts e
      → IsOnly after.attempts e
  Evolves-IsOnly e old h = record {
    active = λ b mb hb same. from b hb same (origin b mb);
    counted = λ n q. omega (arith, v.counts e.row.job_run_id old, h.counted n q);
  }
    where
      from :
          (b : JobAttempt)
          → attempt_is_active b.status ≡ true
          → b.job_run_id ≡ e.row.job_run_id
          → OfRun db.next_id db.attempts b
          → b.id ≡ e.row.id
      from b hb same (inl new) = absurd (omega (arith, new.0, same, old))
      from b hb same (inr (a, m, k)) = k.id ∙ h.active a m (k.active hb) (sym k.run ∙ same)

-- A row that is added is the one that was last, or was there.
pub Memᴰ-of_insert :
    {A : Type 0} (x : A) (xs : List A) (a : A) → Memᴰ a (insert x xs) → (Memᴰ a xs) ⊎ (a ≡ x)
Memᴰ-of_insert x [] a (Memᴰ.head e) = inr e
Memᴰ-of_insert x [] a (Memᴰ.tail m) = inl m
Memᴰ-of_insert x (y ∷ xs) a (Memᴰ.head e) = inl (Memᴰ.head e)
Memᴰ-of_insert x (y ∷ xs) a (Memᴰ.tail m) = elim (Memᴰ-of_insert x xs a m) [
  | inl there ↦ inl (Memᴰ.tail there)
  | inr last ↦ inr last
]

-- A row of a run without active attempts may be added.
pub AllOne-insert :
    (xs : List JobAttempt) (x : JobAttempt)
    → ((a : JobAttempt)
        → Memᴰ a xs
        → attempt_is_active a.status ≡ true
        → a.job_run_id ≡ x.job_run_id
        → ⊥)
    → AllOne xs
    → AllOne (insert x xs)
AllOne-insert xs x idle one a b ma mb ha hb same =
    from (Memᴰ-of_insert x xs a ma) (Memᴰ-of_insert x xs b mb)
  where
    from : (Memᴰ a xs) ⊎ (a ≡ x) → (Memᴰ b xs) ⊎ (b ≡ x) → a.id ≡ b.id
    from (inl m) (inl k) = one a b m k ha hb same
    from (inl m) (inr e) = absurd (idle a m ha (same ∙ ap (λ y. y.job_run_id) e))
    from (inr e) (inl k) = absurd (idle b k hb (sym same ∙ ap (λ y. y.job_run_id) e))
    from (inr e) (inr f) = ap (λ y. y.id) (e ∙ sym f)

-- With the attempt timed out, its run has no active one.
pub timed_out-idle :
    (xs : List JobAttempt) (e : Expiring) (now : ℕ)
    → IsOnly xs e
    → (b : JobAttempt) → Memᴰ b (update (λ a. a.id == e.row.id) (timed_out_at now) xs)
    → attempt_is_active b.status ≡ true
    → b.job_run_id ≡ e.row.job_run_id
    → ⊥
unfolding timed_out_at
timed_out-idle xs e now h b m hb same =
    let (a, ma, how) = Memᴰ-of_update (λ a. a.id == e.row.id) (timed_out_at now) xs b m in
    from a ma how
  where
    from :
        (a : JobAttempt)
        → Memᴰ a xs
        → (((a.id == e.row.id) ≡ true) × (b ≡ timed_out_at now a))
          ⊎ (((a.id == e.row.id) ≡ false) × (b ≡ a))
        → ⊥
    from a ma (inl (hit, q)) = ended (subst (λ x. attempt_is_active x.status ≡ true) q hb)
      where
        ended : false ≡ true → ⊥
        ended z = cc
    from a ma (inr (miss, q)) = apart (
        (==_iff a.id e.row.id).1 (
          h.active a ma (subst (λ x. attempt_is_active x.status ≡ true) q hb)
            (subst (λ x. x.job_run_id ≡ e.row.job_run_id) q same)))
      where
        apart : (a.id == e.row.id) ≡ true → ⊥
        apart z = cc
