-- ===== src/Table/Counts.antt =====
-- Laws of the numbers that the table operations count.
use job_schedular.Base.{
  ℕ, zero, suc, take, ◌+◌, ◌≤◌, ◌<◌, ◌≡◌, refl, ap, subst, ◌==◌, ◌&&◌, inl, inr, Bool, true, false,
  List, [], ◌∷◌, Memᴰ, arith, if◌then◌else◌, Bool-cases, length, All,
}
use job_schedular.Table.{select, count, exists, update, delete, insert}

module _ {A : Type 0} (p : A → Bool) where
  pub length-select : (xs : List A) → length (select p xs) ≡ count p xs
  unfolding select count
  length-select [] = refl
  length-select (x ∷ xs) = ground (arith, length-select xs)

  pub exists-false→count : (xs : List A) → exists p xs ≡ false → count p xs ≡ 0
  unfolding exists count
  exists-false→count [] e = refl
  exists-false→count (x ∷ xs) e = ground (arith, exists-false→count xs)

  pub exists-true→count : (xs : List A) → exists p xs ≡ true → 0 < count p xs
  unfolding exists count
  exists-true→count [] e = cc
  exists-true→count (x ∷ xs) e = ground (arith, exists-true→count xs)

  pub count_pos_of_Memᴰ : (xs : List A) (a : A) → p a ≡ true → Memᴰ a xs → 0 < count p xs
  unfolding count
  count_pos_of_Memᴰ [] a h m = elim m [ ]
  count_pos_of_Memᴰ (x ∷ xs) a h (Memᴰ.head e) = rw (subst (λ y. p y ≡ true) e h) (omega arith)
  count_pos_of_Memᴰ (x ∷ xs) a h (Memᴰ.tail m) = ground (arith, count_pos_of_Memᴰ xs a h m)

  pub count-le-of_delete : (q : A → Bool) (xs : List A) → count p (delete q xs) ≤ count p xs
  unfolding count delete
  count-le-of_delete q [] = omega arith
  count-le-of_delete q (x ∷ xs) = ground (arith, count-le-of_delete q xs)

module _ {A : Type 0} (p : A → Bool) (q : A → Bool) (f : A → A) where
  -- An update under which no row newly fits `p`.
  pub count-update-le :
      ((a : A) → q a ≡ true → p (f a) ≡ true → p a ≡ true)
      → (xs : List A) → count p (update q f xs) ≤ count p xs
  unfolding count update
  count-update-le h [] = omega arith
  count-update-le h (x ∷ xs) = ground (arith, h x, count-update-le h xs)

  -- An update that changes for no row whether it fits `p`.
  pub count-update-eq :
      ((a : A) → q a ≡ true → p (f a) ≡ p a) → (xs : List A) → count p (update q f xs) ≡ count p xs
  unfolding count update
  count-update-eq h [] = refl
  count-update-eq h (x ∷ xs) = ground (arith, h x, count-update-eq h xs)

  -- An update that takes a row out of `p`.
  pub count-update-lt :
      ((a : A) → q a ≡ true → p (f a) ≡ false)
      → (xs : List A) (a : A) → Memᴰ a xs
      → q a ≡ true
      → p a ≡ true
      → count p (update q f xs) < count p xs
  unfolding count update
  count-update-lt h [] a m hq hp = elim m [ ]
  count-update-lt h (x ∷ xs) a (Memᴰ.head e) hq hp = ground (
    arith,
    subst (λ y. q y ≡ true) e hq,
    subst (λ y. p y ≡ true) e hp,
    h x,
    count-update-le (λ b u v. absurd_of (h b u) v) xs,
  )
    where
      absurd_of : {b : Bool} {T : Type 0} → b ≡ false → b ≡ true → T
      absurd_of u v = cc
  count-update-lt h (x ∷ xs) a (Memᴰ.tail m) hq hp =
      ground (arith, h x, count-update-lt h xs a m hq hp)

-- A key that no row reaches is not there.
pub count_fresh :
    {A : Type 0} (key : A → ℕ) (n i : ℕ) (xs : List A)
    → All (λ a. key a < n) xs
    → n ≤ i
    → count (λ a. key a == i) xs ≡ 0
unfolding count
count_fresh key n i [] all h = refl
count_fresh key n i (x ∷ xs) all h = ground (arith, count_fresh key n i xs all.1 h)

pub count-le :
    {A : Type 0} (p q : A → Bool)
    → ((a : A) → p a ≡ true → q a ≡ true)
    → (xs : List A) → count p xs ≤ count q xs
unfolding count
count-le p q h [] = omega arith
count-le p q h (x ∷ xs) = ground (arith, h x, count-le p q h xs)

pub count-false :
    {A : Type 0} (p q : A → Bool)
    → ((a : A) → p a ≡ true → q a ≡ true)
    → (xs : List A) → count q xs ≡ 0
    → count p xs ≡ 0
unfolding count
count-false p q h [] e = refl
count-false p q h (x ∷ xs) e = ground (arith, h x, count-false p q h xs)

pub count-insert :
    {A : Type 0} (p : A → Bool) (a : A) (xs : List A)
    → count p (insert a xs) ≡ count p xs + (if p a then 1 else 0)
unfolding count
count-insert p a [] = ground arith
count-insert p a (x ∷ xs) = ground (arith, count-insert p a xs)

-- A row that does not fit, or the first that does.
pub count-insert_first :
    {A : Type 0} (p : A → Bool) (a : A) (xs : List A)
    → count p xs ≤ 1
    → (p a ≡ true → count p xs ≡ 0)
    → count p (insert a xs) ≤ 1
count-insert_first p a xs h first = elim (Bool-cases (p a)) [
  | inl hit ↦ rw (count-insert p a xs) (rw (hit, first hit) (omega arith))
  | inr miss ↦ rw (count-insert p a xs) (rw miss (omega arith))
]

pub count-delete_other :
    {A : Type 0} (p q : A → Bool) (xs : List A)
    → exists (λ x. p x && q x) xs ≡ false
    → count p (delete q xs) ≡ count p xs
unfolding count delete exists
count-delete_other p q [] e = refl
count-delete_other p q (x ∷ xs) e = ground (arith, count-delete_other p q xs)

pub count-all : {A : Type 0} (xs : List A) → count (λ _. true) xs ≡ length xs
unfolding count
count-all [] = refl
count-all (x ∷ xs) = ap suc (count-all xs)

pub length-delete-le : {A : Type 0} (p : A → Bool) (xs : List A) → length (delete p xs) ≤ length xs
unfolding delete
length-delete-le p [] = omega arith
length-delete-le p (x ∷ xs) = ground (arith, length-delete-le p xs)

pub count-select :
    {A : Type 0} (p q : A → Bool) (xs : List A) → count p (select q xs) ≡ count (λ a. q a && p a) xs
unfolding count select
count-select p q [] = refl
count-select p q (x ∷ xs) = ground (arith, count-select p q xs)

pub count-take-le :
    {A : Type 0} (p : A → Bool) (n : ℕ) (xs : List A) → count p (take n xs) ≤ count p xs
unfolding count
count-take-le p zero xs = omega arith
count-take-le p (suc n) [] = omega arith
count-take-le p (suc n) (x ∷ xs) = ground (arith, count-take-le p n xs)

pub count-select-le :
    {A : Type 0} (p q : A → Bool) (xs : List A) → count p (select q xs) ≤ count p xs
unfolding count select
count-select-le p q [] = omega arith
count-select-le p q (x ∷ xs) = ground (arith, count-select-le p q xs)

pub length-update :
    {A : Type 0} (q : A → Bool) (f : A → A) (xs : List A) → length (update q f xs) ≡ length xs
unfolding update
length-update q f [] = refl
length-update q f (x ∷ xs) = ap suc (length-update q f xs)

pub length-insert : {A : Type 0} (a : A) (xs : List A) → length (insert a xs) ≡ suc (length xs)
length-insert a [] = refl
length-insert a (x ∷ xs) = ap suc (length-insert a xs)

-- An update that keeps `p` on the rows that it changes.
pub count-update_mem :
    {A : Type 0} (p q : A → Bool) (f : A → A) (xs : List A)
    → ((a : A) → Memᴰ a xs → q a ≡ true → p (f a) ≡ p a)
    → count p (update q f xs) ≡ count p xs
unfolding count update
count-update_mem p q f [] h = refl
count-update_mem p q f (x ∷ xs) h =
    let rest = count-update_mem p q f xs (λ a m. h a (Memᴰ.tail m)) in
    ground (arith, rest, h x (Memᴰ.head refl))

pub count-le_mem :
    {A : Type 0} (p q : A → Bool) (xs : List A)
    → ((a : A) → Memᴰ a xs → p a ≡ true → q a ≡ true)
    → count p xs ≤ count q xs
unfolding count
count-le_mem p q [] h = omega arith
count-le_mem p q (x ∷ xs) h =
    let rest = count-le_mem p q xs (λ a m. h a (Memᴰ.tail m)) in
    ground (arith, rest, h x (Memᴰ.head refl))
