-- ===== src/OrderBy.antt =====
-- `order_by`: the database sorts the rows of a query, and leaves open which of two rows with equal
-- keys comes first. So the sort is an argument of the operations that make an ordered query, with
-- the laws that its documentation gives.
pub mod Insertion
pub mod Keys
pub mod Text
use job_schedular.Base.{ℕ, ◌≡◌, ◌↔◌, Bool, List, Memᴰ, IsSorted}
use job_schedular.Table.{count}

pub record OrderBy {A : Type 0} (R : A → A → Type 0) : Type 0 where
  pub sort : List A → List A
  pub count-sort : (p : A → Bool) (xs : List A) → count p (sort xs) ≡ count p xs
  pub mem-sort : (a : A) (xs : List A) → Memᴰ a (sort xs) ↔ Memᴰ a xs
  pub sort-IsSorted : (xs : List A) → IsSorted R (sort xs)
