-- ===== src/Base/Lists.antt =====
-- Lists measured by native numbers, and predicates on lists that compute.
use Prim.Native.Nat.{ℕ, zero, suc, ◌+◌, ◌≤◌}
use mathlib.Core.Path.{◌≡◌, refl, ap, subst, sym}
use mathlib.Core.Logic.{◌⊎◌, inl, inr}
use mathlib.Core.List.{List, [], ◌∷◌, ◌++◌, Memᴰ}
use mathlib.Core.Option.{Option, none, some}
use native.Mathlib.Omega.{arith}

module _ {ℓ} {A : Type ℓ} where
  abbrev pub length : List A → ℕ
  length [] = 0
  length (x ∷ xs) = suc (length xs)

  abbrev pub take : ℕ → List A → List A
  take zero xs = []
  take (suc n) [] = []
  take (suc n) (x ∷ xs) = x ∷ take n xs

  abbrev pub drop : ℕ → List A → List A
  drop zero xs = xs
  drop (suc n) [] = []
  drop (suc n) (x ∷ xs) = drop n xs

  abbrev pub head? : List A → Option A
  head? [] = none
  head? (x ∷ xs) = some x

  abbrev pub All {κ} : (A → Type κ) → List A → Type κ
  All P [] = Unit
  All P (x ∷ xs) = P x × All P xs

  pub length-append : (xs ys : List A) → length (xs ++ ys) ≡ length xs + length ys
  length-append [] ys = omega arith
  length-append (x ∷ xs) ys = omega (arith, length-append xs ys)

  pub length-take-le : (n : ℕ) (xs : List A) → length (take n xs) ≤ n
  length-take-le zero xs = omega arith
  length-take-le (suc n) [] = omega arith
  length-take-le (suc n) (x ∷ xs) = omega (arith, length-take-le n xs)

  pub take-eq_self : (n : ℕ) (xs : List A) → length xs ≤ n → take n xs ≡ xs
  take-eq_self zero [] h = refl
  take-eq_self zero (x ∷ xs) h = absurd (omega arith)
  take-eq_self (suc n) [] h = refl
  take-eq_self (suc n) (x ∷ xs) h = ap (◌∷◌ x) (take-eq_self n xs (omega arith))

module _ {ℓ κ} {A : Type ℓ} (P : A → Type κ) where
  pub All-append : (xs ys : List A) → All P xs → All P ys → All P (xs ++ ys)
  All-append [] ys hx hy = hy
  All-append (x ∷ xs) ys hx hy = (hx.0, All-append xs ys hx.1 hy)

  pub All-take : (n : ℕ) (xs : List A) → All P xs → All P (take n xs)
  All-take zero xs h = tt
  All-take (suc n) [] h = tt
  All-take (suc n) (x ∷ xs) h = (h.0, All-take n xs h.1)

  pub All-of_Memᴰ : (a : A) (xs : List A) → All P xs → Memᴰ a xs → P a
  All-of_Memᴰ a [] h m = elim m [ ]
  All-of_Memᴰ a (x ∷ xs) h (Memᴰ.head e) = subst P (sym e) h.0
  All-of_Memᴰ a (x ∷ xs) h (Memᴰ.tail m) = All-of_Memᴰ a xs h.1 m

  module _ {μ} (Q : A → Type μ) (f : (a : A) → P a → Q a) where
    pub All-map : (xs : List A) → All P xs → All Q xs
    All-map [] h = tt
    All-map (x ∷ xs) h = (f x h.0, All-map xs h.1)

-- Every element stands in the relation to all elements behind it.
abbrev pub IsSorted : {A : Type 0} → (A → A → Type 0) → List A → Type 0
IsSorted R [] = Unit
IsSorted R (x ∷ xs) = All (R x) xs × IsSorted R xs

pub IsSorted-take :
    {A : Type 0} (R : A → A → Type 0) (n : ℕ) (xs : List A) → IsSorted R xs → IsSorted R (take n xs)
IsSorted-take R zero xs h = tt
IsSorted-take R (suc n) [] h = tt
IsSorted-take R (suc n) (x ∷ xs) h = (All-take (R x) n xs h.0, IsSorted-take R n xs h.1)

pub Memᴰ-of_take : {A : Type 0} (a : A) (n : ℕ) (xs : List A) → Memᴰ a (take n xs) → Memᴰ a xs
Memᴰ-of_take a zero xs m = elim m [ ]
Memᴰ-of_take a (suc n) [] m = elim m [ ]
Memᴰ-of_take a (suc n) (x ∷ xs) (Memᴰ.head e) = Memᴰ.head e
Memᴰ-of_take a (suc n) (x ∷ xs) (Memᴰ.tail m) = Memᴰ.tail (Memᴰ-of_take a n xs m)

pub IsSorted-map :
    {A : Type 0} (R S : A → A → Type 0)
    → ((x y : A) → R x y → S x y)
    → (xs : List A) → IsSorted R xs
    → IsSorted S xs
IsSorted-map R S f [] h = tt
IsSorted-map R S f (x ∷ xs) h = (All-map (R x) (S x) (f x) xs h.0, IsSorted-map R S f xs h.1)

pub head?-eq_some : {A : Type 0} (xs : List A) (a : A) → head? xs ≡ some a → Memᴰ a xs
head?-eq_some [] a e = cc
head?-eq_some (x ∷ xs) a e = Memᴰ.head (cc)

-- The head of a sorted list stands in the relation to every element but itself.
pub IsSorted-head :
    {A : Type 0} (R : A → A → Type 0)
    → ((x : A) → R x x)
    → (xs : List A) (a b : A) → IsSorted R xs
    → head? xs ≡ some a
    → Memᴰ b xs
    → R a b
IsSorted-head R self [] a b s e m = elim m [ ]
IsSorted-head R self (x ∷ xs) a b s e m = let same : x ≡ a = cc in subst (λ y. R y b) same (first m)
  where
    first : Memᴰ b (x ∷ xs) → R x b
    first (Memᴰ.head q) = subst (R x) (sym q) (self x)
    first (Memᴰ.tail t) = All-of_Memᴰ (R x) b xs s.0 t

pub head?-eq_none : {A : Type 0} (xs : List A) → head? xs ≡ none → xs ≡ []
head?-eq_none [] e = refl
head?-eq_none (x ∷ xs) e = cc

pub All-of_mem {κ} :
    {A : Type 0} (P : A → Type κ) (xs : List A) → ((a : A) → Memᴰ a xs → P a) → All P xs
All-of_mem P [] f = tt
All-of_mem P (x ∷ xs) f = (f x (Memᴰ.head refl), All-of_mem P xs (λ a m. f a (Memᴰ.tail m)))

pub List-cases {ℓ} :
    {A : Type ℓ} (xs : List A) → (xs ≡ []) ⊎ ((x : A) × (ys : List A) × (xs ≡ x ∷ ys))
List-cases [] = inl refl
List-cases (x ∷ xs) = inr (x, xs, refl)
