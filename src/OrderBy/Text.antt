-- ===== src/OrderBy/Text.antt =====
-- Texts in the order of `Prim.Native.String.compare`, which is that of their code points.
use Prim.Native.Char.{code}
use Prim.Native.String.compare as compare_laws
use Prim.Native.String.{compare}
use text.Mathlib.Text.{is_lt}
use text.Mathlib.TextEquality.{Char-path}
use job_schedular.Base.{
  ◌≡◌, refl, ap, subst, ◌⊎◌, inl, inr, Bool, true, false, ◌||◌, ◌&&◌, String, arith, ltb, ◌==◌,
  Bool-cases,
}

abbrev pub text_le : String → String → Bool
text_le String.[] t = true
text_le (String.◌∷◌ c s) String.[] = false
text_le (String.◌∷◌ c s) (String.◌∷◌ d t) =
    let rest = text_le s t in ltb (code c) (code d) || (code c == code d && rest)

pub text_le_total : (s t : String) → text_le s t ≡ false → text_le t s ≡ true
text_le_total String.[] t h = absurd (ground arith)
text_le_total (String.◌∷◌ c s) String.[] h = refl
text_le_total (String.◌∷◌ c s) (String.◌∷◌ d t) h = ground (arith, text_le_total s t)

pub text_le_trans : (s t u : String) → text_le s t ≡ true → text_le t u ≡ true → text_le s u ≡ true
text_le_trans String.[] t u h k = refl
text_le_trans (String.◌∷◌ c s) String.[] u h k = absurd (ground arith)
text_le_trans (String.◌∷◌ c s) (String.◌∷◌ d t) String.[] h k = absurd (ground arith)
text_le_trans (String.◌∷◌ c s) (String.◌∷◌ d t) (String.◌∷◌ e u) h k =
    ground (arith, text_le_trans s t u)

pub compare-of_text_le :
    (s t : String) → text_le s t ≡ true → (is_lt (compare s t) ≡ true) ⊎ (s ≡ t)
compare-of_text_le String.[] String.[] h = inr refl
compare-of_text_le String.[] (String.◌∷◌ d t) h = inl (rw (compare_laws.nil-cons d t) refl)
compare-of_text_le (String.◌∷◌ c s) String.[] h = absurd (ground arith)
compare-of_text_le (String.◌∷◌ c s) (String.◌∷◌ d t) h = elim (Bool-cases (ltb (code c) (code d))) [
  | inl lt ↦ inl (rw (compare_laws.cons-cons c d s t) (ground arith))
  | inr ge ↦ elim (compare-of_text_le s t (ground arith)) [
    | inl less ↦ inl (rw (compare_laws.cons-cons c d s t) (ground (arith, less)))
    | inr same ↦ inr (
        subst (λ x. String.◌∷◌ c s ≡ String.◌∷◌ x t) (Char-path c d (ground arith))
          (ap (String.◌∷◌ c) same))
  ]
]
