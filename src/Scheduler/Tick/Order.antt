-- ===== src/Scheduler/Tick/Order.antt =====
-- The order in which a tick takes the due jobs.
use Prim.Native.String.{compare}
use text.Mathlib.Text.{is_lt}
use job_schedular.Base.{
  ℕ, zero, suc, ◌<◌, ◌≡◌, refl, sym, subst, ◌∙◌, inl, inr, Bool, true, false, not, ◌||◌, ◌&&◌,
  Option, none, some, List, [], ◌∷◌, Memᴰ, arith, leb, leb→le, str_eq, eq_iff, Bool-cases, take,
  All, IsSorted,
}
use job_schedular.Table.{count, select}
use job_schedular.OrderBy.{OrderBy}
use job_schedular.OrderBy.Keys.{order_by_le}
use job_schedular.OrderBy.Text.{text_le, text_le_total, text_le_trans, compare-of_text_le}
use job_schedular.Models.{Job, Database}
use job_schedular.Scheduler.Tick.{max_jobs_per_tick, PriorityText, NextRunLe, is_due, due_jobs}

-- NULL first, as `PriorityText` has it.
abbrev pub next_le : Option ℕ → Option ℕ → Bool
next_le none t = true
next_le (some s) none = false
next_le (some s) (some t) = leb s t

next_le-NextRunLe : (s t : Option ℕ) → next_le s t ≡ true → NextRunLe s t
next_le-NextRunLe none t h = tt
next_le-NextRunLe (some s) none h = absurd (ground arith)
next_le-NextRunLe (some s) (some t) h = leb→le s t h

next_le_total : (s t : Option ℕ) → next_le s t ≡ false → next_le t s ≡ true
next_le_total none t h = absurd (ground arith)
next_le_total (some s) none h = refl
next_le_total (some s) (some t) h = ground arith

next_le_trans : (s t u : Option ℕ) → next_le s t ≡ true → next_le t u ≡ true → next_le s u ≡ true
next_le_trans none t u h k = refl
next_le_trans (some s) none u h k = absurd (ground arith)
next_le_trans (some s) (some t) none h k = absurd (ground arith)
next_le_trans (some s) (some t) (some u) h k = ground arith

abbrev pub by_text : Job → Job → Bool
by_text a b =
    text_le a.priority b.priority
    && (not (text_le b.priority a.priority) || next_le a.next_run_at b.next_run_at)

pub by_text_total : (a b : Job) → by_text a b ≡ false → by_text b a ≡ true
by_text_total a b h =
    ground (arith, text_le_total a.priority b.priority, next_le_total a.next_run_at b.next_run_at)

pub by_text_trans : (a b c : Job) → by_text a b ≡ true → by_text b c ≡ true → by_text a c ≡ true
by_text_trans a b c h k = ground (
  arith,
  text_le_trans a.priority b.priority c.priority,
  text_le_trans c.priority a.priority b.priority,
  text_le_trans b.priority c.priority a.priority,
  next_le_trans a.next_run_at b.next_run_at c.next_run_at,
)

pub by_text-PriorityText : (a b : Job) → by_text a b ≡ true → PriorityText a b
by_text-PriorityText a b h = elim (compare-of_text_le a.priority b.priority (ground arith)) [
  | inl less ↦ inl less
  | inr same ↦ inr (
    same,
    next_le-NextRunLe a.next_run_at b.next_run_at
        (ground (arith, subst (λ p. text_le p a.priority ≡ true) same (reflexive a))),
  )
]
  where
    reflexive : (x : Job) → text_le x.priority x.priority ≡ true
    reflexive x = elim (Bool-cases (text_le x.priority x.priority)) [
      | inl e ↦ e
      | inr e ↦ text_le_total x.priority x.priority e
    ]

-- The insertion sort is such a sort.
abbrev pub order_by_priority : OrderBy PriorityText
order_by_priority =
    order_by_le by_text by_text_total by_text_trans PriorityText by_text-PriorityText

module _ {A : Type 0} (R : A → A → Type 0) (p : A → Bool) (a : A)
    (behind : (y : A) → R a y → p y ≡ false) (not_it : p a ≡ false) where
  All-count : (ys : List A) → All (R a) ys → count p ys ≡ 0
  unfolding count
  All-count [] all = refl
  All-count (y ∷ ys) all = rw (behind y all.0) (All-count ys all.1)

  -- What stands before an element of a sorted list fits in the same prefix.
  count-lt_of_take : (n : ℕ) (xs : List A) → IsSorted R xs → Memᴰ a (take n xs) → count p xs < n
  unfolding count
  count-lt_of_take zero xs s m = elim m [ ]
  count-lt_of_take (suc n) [] s m = elim m [ ]
  count-lt_of_take (suc n) (x ∷ xs) s (Memᴰ.head e) =
      rw (subst (λ y. p y ≡ false) e not_it)
        (omega (arith, All-count xs (subst (λ y. All (R y) xs) (sym e) s.0)))
  count-lt_of_take (suc n) (x ∷ xs) s (Memᴰ.tail m) = ground (arith, count-lt_of_take n xs s.1 m)

low_behind_medium :
    (a b : Job) → a.priority ≡ "MEDIUM" → PriorityText a b → str_eq b.priority "LOW" ≡ false
low_behind_medium a b medium r = elim (Bool-cases (str_eq b.priority "LOW")) [
  | inr e ↦ e
  | inl e ↦ absurd (clash ((eq_iff b.priority "LOW").0 e) r)
]
  where
    clash : b.priority ≡ "LOW" → PriorityText a b → ⊥
    clash low (inl less) = impossible (
        subst (λ q. is_lt (compare "MEDIUM" q) ≡ true) low
          (subst (λ q. is_lt (compare q b.priority) ≡ true) medium less))
      where
        impossible : false ≡ true → ⊥
        impossible h = ground arith
    clash low (inr (same, next)) = impossible ((eq_iff "MEDIUM" "LOW").1 (sym medium ∙ same ∙ low))
      where
        impossible : false ≡ true → ⊥
        impossible h = ground arith

count-select :
    {A : Type 0} (p q : A → Bool) (xs : List A) → count p (select q xs) ≡ count (λ x. q x && p x) xs
unfolding count select
count-select p q [] = refl
count-select p q (x ∷ xs) = ground (arith, count-select p q xs)

-- A tick takes a MEDIUM job only if fewer than fifty LOW jobs are due: the priorities are sorted as
-- text. The rows that others hold locked do not count as due.
pub due_jobs_medium_last :
    (o : OrderBy PriorityText) (locked : ℕ → Bool) (now : ℕ) (db : Database) (job : Job)
    → Memᴰ job (due_jobs o locked now db)
    → job.priority ≡ "MEDIUM"
    → count (λ j. is_due locked now j && str_eq j.priority "LOW") db.jobs < max_jobs_per_tick
unfolding due_jobs
due_jobs_medium_last o locked now db job m medium = omega (
  arith,
  count-lt_of_take PriorityText is_low job (λ b. low_behind_medium job b medium) not_low
      max_jobs_per_tick (o.sort due) (o.sort-IsSorted due) m,
  o.count-sort is_low due,
  count-select is_low (is_due locked now) db.jobs,
)
  where
    is_low : Job → Bool
    is_low j = str_eq j.priority "LOW"

    due : List Job
    due = select (is_due locked now) db.jobs

    not_low : str_eq job.priority "LOW" ≡ false
    not_low = rw medium refl
