-- ===== src/Table.antt =====
-- A database table is the list of its rows, in the order in which they were inserted. These are
-- the queryset methods that the source calls: filter, update, delete, count, exists, get, create.
-- The proofs stand in the modules below.
pub mod Counts
pub mod Rows
pub mod Updates
use job_schedular.Base.{
  ℕ, suc, Bool, true, false, ◌||◌, Option, none, some, List, [], ◌∷◌, ◌++◌, if◌then◌else◌,
}

module _ {A : Type 0} where
  -- Objects.filter(...), evaluated.
  unfoldable pub select : (A → Bool) → List A → List A
  select p [] = []
  select p (x ∷ xs) = let rest = select p xs in if p x then x ∷ rest else rest

  -- Objects.filter(...).count(), and the number of rows that an update reports.
  unfoldable pub count : (A → Bool) → List A → ℕ
  count p [] = 0
  count p (x ∷ xs) = let rest = count p xs in if p x then suc rest else rest

  unfoldable pub exists : (A → Bool) → List A → Bool
  exists p [] = false
  exists p (x ∷ xs) = p x || exists p xs

  -- The first row that fits.
  unfoldable pub find? : (A → Bool) → List A → Option A
  find? p [] = none
  find? p (x ∷ xs) = let rest = find? p xs in if p x then some x else rest

  -- Objects.filter(p).update(f).
  unfoldable pub update : (A → Bool) → (A → A) → List A → List A
  update p f [] = []
  update p f (x ∷ xs) = (if p x then f x else x) ∷ update p f xs

  -- Objects.filter(p).delete().
  unfoldable pub delete : (A → Bool) → List A → List A
  delete p [] = []
  delete p (x ∷ xs) = let rest = delete p xs in if p x then rest else x ∷ rest

  -- Objects.create(...).
  abbrev pub insert : A → List A → List A
  insert x xs = xs ++ x ∷ []
