-- ===== src/Table/Updates.antt =====
-- Equations between updates of a table.
use job_schedular.Base.{
  ◌≡◌, refl, Bool, ◌||◌, List, [], ◌∷◌, Memᴰ, if◌then◌else◌, Bool-cases, inl, inr,
}
use job_schedular.Table.{update}

module _ {A : Type 0} where
  -- Two updates that agree on the rows of the table.
  pub update-congr :
      (p q : A → Bool) (f g : A → A) (xs : List A)
      → ((a : A) → Memᴰ a xs → (if p a then f a else a) ≡ (if q a then g a else a))
      → update p f xs ≡ update q g xs
  unfolding update
  update-congr p q f g [] h = refl
  update-congr p q f g (x ∷ xs) h =
      rw (h x (Memᴰ.head refl), update-congr p q f g xs (λ a m. h a (Memᴰ.tail m))) refl

  -- An update that leaves every row as it is.
  pub update-eq_self :
      (p : A → Bool) (f : A → A) (xs : List A)
      → ((a : A) → (if p a then f a else a) ≡ a)
      → update p f xs ≡ xs
  unfolding update
  update-eq_self p f [] h = refl
  update-eq_self p f (x ∷ xs) h = rw (h x, update-eq_self p f xs h) refl

  -- Two updates in a row are one, where the second finds the rows as the first left them.
  pub update-update :
      (p q : A → Bool) (f : A → A)
      → ((a : A) → f (f a) ≡ f a)
      → ((a : A) → q (f a) ≡ q a)
      → (xs : List A) → update q f (update p f xs) ≡ update (λ a. p a || q a) f xs
  unfolding update
  update-update p q f again same [] = refl
  update-update p q f again same (x ∷ xs) = elim (Bool-cases (p x)) [
    | inl e ↦ elim (Bool-cases (q x)) [
      | inl d ↦ rw (e, same x, d, again x, update-update p q f again same xs) refl
      | inr d ↦ rw (e, same x, d, update-update p q f again same xs) refl
    ]
    | inr e ↦ rw (e, update-update p q f again same xs) refl
  ]
