-- ===== src/OrderBy/Insertion.antt =====
-- Python's `list.sort`, a stable sort, as an insertion sort; and the instance of `OrderBy` that it
-- gives.
use job_schedular.Base.{
  ◌≡◌, refl, subst, ◌↔◌, inl, inr, Bool, true, false, List, [], ◌∷◌, Memᴰ, arith, if◌then◌else◌,
  Bool-cases, All, IsSorted,
}
use job_schedular.Table.{count}

module _ {A : Type 0} (le : A → A → Bool) where
  -- `x` goes in front of what it does not follow, so of equal elements the earlier stays in front.
  unfoldable pub insert_by : A → List A → List A
  insert_by x [] = x ∷ []
  insert_by x (y ∷ ys) = if le x y then x ∷ y ∷ ys else y ∷ insert_by x ys

  unfoldable pub sort_by : List A → List A
  sort_by [] = []
  sort_by (x ∷ xs) = insert_by x (sort_by xs)

  count-insert_by :
      (p : A → Bool) (x : A) (xs : List A) → count p (insert_by x xs) ≡ count p (x ∷ xs)
  unfolding insert_by count
  count-insert_by p x [] = refl
  count-insert_by p x (y ∷ ys) = ground (arith, count-insert_by p x ys)

  pub count-sort_by : (p : A → Bool) (xs : List A) → count p (sort_by xs) ≡ count p xs
  unfolding sort_by count
  count-sort_by p [] = refl
  count-sort_by p (x ∷ xs) = ground (arith, count-insert_by p x (sort_by xs), count-sort_by p xs)

  mem-insert_by : (a x : A) (xs : List A) → Memᴰ a (insert_by x xs) → Memᴰ a (x ∷ xs)
  unfolding insert_by
  mem-insert_by a x [] m = m
  mem-insert_by a x (y ∷ ys) m = elim (Bool-cases (le x y)) [
    | inl e ↦ rw e at m
    | inr e ↦ behind (mem-insert_by a x ys) (rw e at m)
  ]
    where
      behind :
          (Memᴰ a (insert_by x ys) → Memᴰ a (x ∷ ys))
          → Memᴰ a (y ∷ insert_by x ys)
          → Memᴰ a (x ∷ y ∷ ys)
      behind ih (Memᴰ.head q) = Memᴰ.tail (Memᴰ.head q)
      behind ih (Memᴰ.tail t) = swap (ih t)
        where
          swap : Memᴰ a (x ∷ ys) → Memᴰ a (x ∷ y ∷ ys)
          swap (Memᴰ.head q) = Memᴰ.head q
          swap (Memᴰ.tail u) = Memᴰ.tail (Memᴰ.tail u)

  insert_by-mem : (a x : A) (xs : List A) → Memᴰ a (x ∷ xs) → Memᴰ a (insert_by x xs)
  unfolding insert_by
  insert_by-mem a x [] m = m
  insert_by-mem a x (y ∷ ys) m = elim (Bool-cases (le x y)) [
    | inl e ↦ rw e m
    | inr e ↦ rw e (behind (insert_by-mem a x ys) m)
  ]
    where
      behind :
          (Memᴰ a (x ∷ ys) → Memᴰ a (insert_by x ys))
          → Memᴰ a (x ∷ y ∷ ys)
          → Memᴰ a (y ∷ insert_by x ys)
      behind ih (Memᴰ.head q) = Memᴰ.tail (ih (Memᴰ.head q))
      behind ih (Memᴰ.tail (Memᴰ.head q)) = Memᴰ.head q
      behind ih (Memᴰ.tail (Memᴰ.tail u)) = Memᴰ.tail (ih (Memᴰ.tail u))

  mem-sort_by→ : (a : A) (xs : List A) → Memᴰ a (sort_by xs) → Memᴰ a xs
  unfolding sort_by
  mem-sort_by→ a [] m = m
  mem-sort_by→ a (x ∷ xs) m = front (mem-sort_by→ a xs) (mem-insert_by a x (sort_by xs) m)
    where
      front : (Memᴰ a (sort_by xs) → Memᴰ a xs) → Memᴰ a (x ∷ sort_by xs) → Memᴰ a (x ∷ xs)
      front ih (Memᴰ.head q) = Memᴰ.head q
      front ih (Memᴰ.tail t) = Memᴰ.tail (ih t)

  mem-sort_by← : (a : A) (xs : List A) → Memᴰ a xs → Memᴰ a (sort_by xs)
  unfolding sort_by
  mem-sort_by← a [] m = m
  mem-sort_by← a (x ∷ xs) (Memᴰ.head q) = insert_by-mem a x (sort_by xs) (Memᴰ.head q)
  mem-sort_by← a (x ∷ xs) (Memᴰ.tail m) =
      insert_by-mem a x (sort_by xs) (Memᴰ.tail (mem-sort_by← a xs m))

  pub mem-sort_by : (a : A) (xs : List A) → Memᴰ a (sort_by xs) ↔ Memᴰ a xs
  mem-sort_by a xs = (mem-sort_by→ a xs, mem-sort_by← a xs)

  All-insert_by : (P : A → Type 0) (x : A) (xs : List A) → P x → All P xs → All P (insert_by x xs)
  unfolding insert_by
  All-insert_by P x [] h hs = (h, tt)
  All-insert_by P x (y ∷ ys) h hs = elim (Bool-cases (le x y)) [
    | inl e ↦ rw e (h, (hs.0, hs.1))
    | inr e ↦ rw e (hs.0, All-insert_by P x ys h hs.1)
  ]

  All-sort_by : (P : A → Type 0) (xs : List A) → All P xs → All P (sort_by xs)
  unfolding sort_by
  All-sort_by P [] hs = tt
  All-sort_by P (x ∷ xs) hs = All-insert_by P x (sort_by xs) hs.0 (All-sort_by P xs hs.1)

  pub sort_by-nil : (xs : List A) → sort_by xs ≡ [] → xs ≡ []
  sort_by-nil [] e = refl
  sort_by-nil (x ∷ xs) e = nothing (subst (Memᴰ x) e (mem-sort_by← x (x ∷ xs) (Memᴰ.head refl)))
    where
      nothing : Memᴰ x [] → x ∷ xs ≡ []
      nothing m = elim m [ ]

  -- In front by the key, and on a tie in front by `R`.
  abbrev pub Precedes : (A → A → Type 0) → A → A → Type 0
  Precedes R x y = (le x y ≡ true) × (le y x ≡ true → R x y)

  module _ (total : (x y : A) → le x y ≡ false → le y x ≡ true)
      (trans : (x y z : A) → le x y ≡ true → le y z ≡ true → le x z ≡ true)
      (R : A → A → Type 0) where
    behind-All :
        (x y : A) (ys : List A)
        → le x y ≡ true
        → All (Precedes R y) ys
        → All (R x) ys
        → All (Precedes R x) ys
    behind-All x y [] h hs rs = tt
    behind-All x y (z ∷ zs) h hs rs =
        ((trans x y z h hs.0.0, λ _. rs.0), behind-All x y zs h hs.1 rs.1)

    insert_by-IsSorted :
        (x : A) (ys : List A)
        → All (R x) ys
        → IsSorted (Precedes R) ys
        → IsSorted (Precedes R) (insert_by x ys)
    unfolding insert_by
    insert_by-IsSorted x [] rs s = (tt, tt)
    insert_by-IsSorted x (y ∷ ys) rs s = elim (Bool-cases (le x y)) [
      | inl e ↦ rw e (((e, λ _. rs.0), behind-All x y ys e s.0 rs.1), s)
      | inr e ↦ rw e (
        All-insert_by (Precedes R y) x ys (total x y e, λ t. absurd (cc)) s.0,
        insert_by-IsSorted x ys rs.1 s.1,
      )
    ]

    -- Stability: what `R` sorted is sorted by the key, and by `R` among equal keys.
    pub sort_by-IsSorted : (xs : List A) → IsSorted R xs → IsSorted (Precedes R) (sort_by xs)
    unfolding sort_by
    sort_by-IsSorted [] s = tt
    sort_by-IsSorted (x ∷ xs) s =
        insert_by-IsSorted x (sort_by xs) (All-sort_by (R x) xs s.0) (sort_by-IsSorted xs s.1)
