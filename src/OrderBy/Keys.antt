-- ===== src/OrderBy/Keys.antt =====
-- The insertion sort as an `OrderBy`, for any total order, and for a key that is a number.
use job_schedular.Base.{
  ℕ, ◌≤◌, ◌≡◌, Bool, true, false, List, [], ◌∷◌, arith, leb, leb→le, All, IsSorted, IsSorted-map,
}
use job_schedular.OrderBy.{OrderBy}
use job_schedular.OrderBy.Insertion.{
  sort_by, count-sort_by, mem-sort_by, sort_by-IsSorted, Precedes,
}

module _ {A : Type 0} (le : A → A → Bool) (total : (x y : A) → le x y ≡ false → le y x ≡ true)
    (trans : (x y z : A) → le x y ≡ true → le y z ≡ true → le x z ≡ true) (R : A → A → Type 0)
    (sound : (x y : A) → le x y ≡ true → R x y) where
  IsSorted-any : (xs : List A) → IsSorted (λ x y. Unit {0}) xs
  IsSorted-any [] = tt
  IsSorted-any (x ∷ xs) = (All-any xs, IsSorted-any xs)
    where
      All-any : (ys : List A) → All (λ y. Unit {0}) ys
      All-any = elim [ [] ↦ tt | y ∷ (ys → ih) ↦ (tt, ih) ]

  pub sort-IsSorted : (xs : List A) → IsSorted R (sort_by le xs)
  sort-IsSorted xs =
      IsSorted-map (Precedes le (λ x y. Unit {0})) R (λ x y h. sound x y h.0) (sort_by le xs)
        (sort_by-IsSorted le total trans (λ x y. Unit {0}) xs (IsSorted-any xs))

  abbrev pub order_by_le : OrderBy R
  order_by_le = record {
    sort = sort_by le;
    count-sort = count-sort_by le;
    mem-sort = mem-sort_by le;
    sort-IsSorted = sort-IsSorted;
  }

module _ {A : Type 0} (key : A → ℕ) where
  abbrev pub by_key : A → A → Bool
  by_key x y = leb (key x) (key y)

  pub by_key_total : (x y : A) → by_key x y ≡ false → by_key y x ≡ true
  by_key_total x y h = ground arith

  pub by_key_trans : (x y z : A) → by_key x y ≡ true → by_key y z ≡ true → by_key x z ≡ true
  by_key_trans x y z h k = ground arith

  abbrev pub order_by_key : OrderBy {A = A} (λ x y. key x ≤ key y)
  order_by_key =
      order_by_le by_key by_key_total by_key_trans (λ x y. key x ≤ key y)
        (λ x y h. leb→le (key x) (key y) h)

-- A descending order.
module _ {A : Type 0} (key : A → ℕ) where
  pub descending_trans :
      (x y z : A) → by_key key y x ≡ true → by_key key z y ≡ true → by_key key z x ≡ true
  descending_trans x y z h k = by_key_trans key z y x k h

  abbrev pub order_by_key_descending : OrderBy {A = A} (λ x y. key y ≤ key x)
  order_by_key_descending =
      order_by_le (λ x y. by_key key y x) (λ x y. by_key_total key y x) descending_trans
        (λ x y. key y ≤ key x) (λ x y h. leb→le (key y) (key x) h)
