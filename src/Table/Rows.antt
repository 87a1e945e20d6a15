-- ===== src/Table/Rows.antt =====
-- Which rows the table operations find, keep and change.
use job_schedular.Base.{
  Option-cases, ◌<◌, none, some, ◌≤◌, ◌≡◌, refl, sym, ap, subst, ◌⊎◌, inl, inr, Bool, true, false,
  some, List, [], ◌∷◌, Memᴰ, arith, Bool-cases, All,
}
use job_schedular.Table.{select, count, exists, find?, update, delete, insert}
use job_schedular.Table.Counts.{count_pos_of_Memᴰ}

module _ {A : Type 0} (p : A → Bool) where
  pub find?-eq-some : (xs : List A) (a : A) → find? p xs ≡ some a → (p a ≡ true) × Memᴰ a xs
  unfolding find?
  find?-eq-some [] a e = cc
  find?-eq-some (x ∷ xs) a e = elim (Bool-cases (p x)) [
    | inl hit ↦
        let same : x ≡ a = ground arith in (subst (λ y. p y ≡ true) same hit, Memᴰ.head (sym same))
    | inr miss ↦ let found = find?-eq-some xs a (ground arith) in (found.0, Memᴰ.tail found.1)
  ]

  pub All-select : (xs : List A) → All (λ a. p a ≡ true) (select p xs)
  unfolding select
  All-select [] = tt
  All-select (x ∷ xs) = elim (Bool-cases (p x)) [
    | inl hit ↦ rw hit (hit, All-select xs)
    | inr miss ↦ rw miss (All-select xs)
  ]

module _ {A : Type 0} (P : A → Type 0) where
  pub All-update_mem :
      (q : A → Bool) (f : A → A) (xs : List A)
      → ((a : A) → Memᴰ a xs → P a → q a ≡ true → P (f a))
      → All P xs
      → All P (update q f xs)
  unfolding update
  All-update_mem q f [] h all = tt
  All-update_mem q f (x ∷ xs) h all = elim (Bool-cases (q x)) [
    | inl hit ↦
        rw hit
          (h x (Memᴰ.head refl) all.0 hit, All-update_mem q f xs (λ a m. h a (Memᴰ.tail m)) all.1)
    | inr miss ↦ rw miss (all.0, All-update_mem q f xs (λ a m. h a (Memᴰ.tail m)) all.1)
  ]

  pub All-update :
      (q : A → Bool) (f : A → A)
      → ((a : A) → P a → q a ≡ true → P (f a))
      → (xs : List A) → All P xs
      → All P (update q f xs)
  unfolding update
  All-update q f h [] all = tt
  All-update q f h (x ∷ xs) all = elim (Bool-cases (q x)) [
    | inl hit ↦ rw hit (h x all.0 hit, All-update q f h xs all.1)
    | inr miss ↦ rw miss (all.0, All-update q f h xs all.1)
  ]

  pub All-delete : (q : A → Bool) (xs : List A) → All P xs → All P (delete q xs)
  unfolding delete
  All-delete q [] all = tt
  All-delete q (x ∷ xs) all = elim (Bool-cases (q x)) [
    | inl hit ↦ rw hit (All-delete q xs all.1)
    | inr miss ↦ rw miss (all.0, All-delete q xs all.1)
  ]

module _ {A : Type 0} (p : A → Bool) where
  -- A row that no other row matches is the one that `find?` gives.
  pub find?_of_unique :
      (xs : List A) (a : A) → count p xs ≤ 1 → Memᴰ a xs → p a ≡ true → find? p xs ≡ some a
  unfolding find? count
  find?_of_unique [] a h m e = elim m [ ]
  find?_of_unique (x ∷ xs) a h (Memᴰ.head q) e = rw (subst (λ y. p y ≡ true) q e) (ap some (sym q))
  find?_of_unique (x ∷ xs) a h (Memᴰ.tail m) e =
      ground (arith, count_pos_of_Memᴰ p xs a e m, find?_of_unique xs a)

  pub Memᴰ-select : (xs : List A) (a : A) → Memᴰ a xs → p a ≡ true → Memᴰ a (select p xs)
  unfolding select
  Memᴰ-select [] a m e = m
  Memᴰ-select (x ∷ xs) a (Memᴰ.head q) e = rw (subst (λ y. p y ≡ true) q e) (Memᴰ.head q)
  Memᴰ-select (x ∷ xs) a (Memᴰ.tail m) e = elim (Bool-cases (p x)) [
    | inl hit ↦ rw hit (Memᴰ.tail (Memᴰ-select xs a m e))
    | inr miss ↦ rw miss (Memᴰ-select xs a m e)
  ]

  pub Memᴰ-of_select : (xs : List A) (a : A) → Memᴰ a (select p xs) → Memᴰ a xs × (p a ≡ true)
  unfolding select
  Memᴰ-of_select [] a m = elim m [ ]
  Memᴰ-of_select (x ∷ xs) a m = elim (Bool-cases (p x)) [
    | inl hit ↦ kept hit (λ t. Memᴰ-of_select xs a t) (rw hit at m)
    | inr miss ↦ let rest = Memᴰ-of_select xs a (rw miss at m) in (Memᴰ.tail rest.0, rest.1)
  ]
    where
      kept :
          p x ≡ true
          → (Memᴰ a (select p xs) → Memᴰ a xs × (p a ≡ true))
          → Memᴰ a (x ∷ select p xs)
          → Memᴰ a (x ∷ xs) × (p a ≡ true)
      kept hit ih (Memᴰ.head q) = (Memᴰ.head q, subst (λ y. p y ≡ true) (sym q) hit)
      kept hit ih (Memᴰ.tail t) = (Memᴰ.tail (ih t).0, (ih t).1)

module _ {A : Type 0} (q : A → Bool) (f : A → A) where
  pub Memᴰ-update : (xs : List A) (a : A) → Memᴰ a xs → q a ≡ true → Memᴰ (f a) (update q f xs)
  unfolding update
  Memᴰ-update [] a m e = elim m [ ]
  Memᴰ-update (x ∷ xs) a (Memᴰ.head h) e = rw (subst (λ y. q y ≡ true) h e) (Memᴰ.head (ap f h))
  Memᴰ-update (x ∷ xs) a (Memᴰ.tail m) e = Memᴰ.tail (Memᴰ-update xs a m e)

  pub Memᴰ-update_other : (xs : List A) (a : A) → Memᴰ a xs → q a ≡ false → Memᴰ a (update q f xs)
  unfolding update
  Memᴰ-update_other [] a m e = elim m [ ]
  Memᴰ-update_other (x ∷ xs) a (Memᴰ.head h) e = rw (subst (λ y. q y ≡ false) h e) (Memᴰ.head h)
  Memᴰ-update_other (x ∷ xs) a (Memᴰ.tail m) e = Memᴰ.tail (Memᴰ-update_other xs a m e)

  -- Where every row of the updated table comes from.
  pub Memᴰ-of_update :
      (xs : List A) (b : A)
      → Memᴰ b (update q f xs)
      → (a : A) × Memᴰ a xs × (((q a ≡ true) × (b ≡ f a)) ⊎ ((q a ≡ false) × (b ≡ a)))
  unfolding update
  Memᴰ-of_update [] b m = elim m [ ]
  Memᴰ-of_update (x ∷ xs) b (Memᴰ.head h) = elim (Bool-cases (q x)) [
    | inl hit ↦ (x, Memᴰ.head refl, inl (hit, rw hit at h))
    | inr miss ↦ (x, Memᴰ.head refl, inr (miss, rw miss at h))
  ]
  Memᴰ-of_update (x ∷ xs) b (Memᴰ.tail m) =
      let (a, found, how) = Memᴰ-of_update xs b m in (a, Memᴰ.tail found, how)

-- What is left after a delete did not fit.
pub All-delete_kept :
    {A : Type 0} (P Q : A → Type 0) (q : A → Bool)
    → ((a : A) → P a → q a ≡ false → Q a)
    → (xs : List A) → All P xs
    → All Q (delete q xs)
unfolding delete
All-delete_kept P Q q h [] all = tt
All-delete_kept P Q q h (x ∷ xs) all = elim (Bool-cases (q x)) [
  | inl hit ↦ rw hit (All-delete_kept P Q q h xs all.1)
  | inr miss ↦ rw miss (h x all.0 miss, All-delete_kept P Q q h xs all.1)
]

-- An update, told for the rows that it hits and for those that it does not.
pub All-update_cases :
    {A : Type 0} (P Q : A → Type 0) (q : A → Bool) (f : A → A)
    → ((a : A) → P a → q a ≡ true → Q (f a))
    → ((a : A) → P a → q a ≡ false → Q a)
    → (xs : List A) → All P xs
    → All Q (update q f xs)
unfolding update
All-update_cases P Q q f hit miss [] all = tt
All-update_cases P Q q f hit miss (x ∷ xs) all = elim (Bool-cases (q x)) [
  | inl e ↦ rw e (hit x all.0 e, All-update_cases P Q q f hit miss xs all.1)
  | inr e ↦ rw e (miss x all.0 e, All-update_cases P Q q f hit miss xs all.1)
]

pub exists-of_mem :
    {A : Type 0} (p : A → Bool) (xs : List A) (a : A) → Memᴰ a xs → p a ≡ true → exists p xs ≡ true
unfolding exists
exists-of_mem p [] a m e = elim m [ ]
exists-of_mem p (x ∷ xs) a (Memᴰ.head h) e = rw (subst (λ y. p y ≡ true) h e) refl
exists-of_mem p (x ∷ xs) a (Memᴰ.tail m) e = ground (arith, exists-of_mem p xs a m e)

pub find?-none→count :
    {A : Type 0} (p : A → Bool) (xs : List A) → find? p xs ≡ none → count p xs ≡ 0
unfolding find? count
find?-none→count p [] e = refl
find?-none→count p (x ∷ xs) e = ground (arith, find?-none→count p xs)

pub exists-none :
    {A : Type 0} (p : A → Bool) (xs : List A)
    → ((a : A) → Memᴰ a xs → p a ≡ false)
    → exists p xs ≡ false
unfolding exists
exists-none p [] h = refl
exists-none p (x ∷ xs) h = rw (h x (Memᴰ.head refl)) (exists-none p xs (λ a m. h a (Memᴰ.tail m)))

pub Memᴰ-insert : {A : Type 0} (a : A) (xs : List A) → Memᴰ a (insert a xs)
Memᴰ-insert a [] = Memᴰ.head refl
Memᴰ-insert a (x ∷ xs) = Memᴰ.tail (Memᴰ-insert a xs)

pub row_of_count :
    {A : Type 0} (p : A → Bool) (xs : List A) → 0 < count p xs → (a : A) × Memᴰ a xs × (p a ≡ true)
row_of_count p xs some_row = elim (Option-cases (find? p xs)) [
  | inl e ↦ absurd (omega (arith, find?-none→count p xs e))
  | inr (a, e) ↦ let found = find?-eq-some p xs a e in (a, found.1, found.0)
]
