-- ===== src/Base/Flatten.antt =====
-- Texts one after the other, and a text less the code points that a test names.
use Prim.Native.Nat.{ℕ}
use mathlib.Core.Path.{◌≡◌, refl, ap, ◌∙◌}
use mathlib.Core.Logic.{inl, inr}
use mathlib.Core.Bool.{Bool, true}
use mathlib.Core.List.{List, [], ◌∷◌, ◌++◌, append_assoc, append-nil, reverse, reverse-cons}
use prukka.Base.Tests.{if◌then◌else◌, Bool-cases}
use prukka.Base.Strings.{Text, fields_from}

abbrev pub flatten {ℓ} : {A : Type ℓ} → List (List A) → List A
flatten [] = []
flatten (w ∷ ws) = w ++ flatten ws

pub flatten-append {ℓ} :
    {A : Type ℓ} (xs ys : List (List A)) → flatten (xs ++ ys) ≡ flatten xs ++ flatten ys
flatten-append [] ys = refl
flatten-append (x ∷ xs) ys = rw (flatten-append xs ys, append_assoc)

-- The code points that the test does not hold of.
unfoldable pub bare : (ℕ → Bool) → Text → Text
bare p [] = []
bare p (c ∷ cs) = let rest = bare p cs in if p c then rest else c ∷ rest

module _ (p : ℕ → Bool) where
  pub bare-append : (a b : Text) → bare p (a ++ b) ≡ bare p a ++ bare p b
  unfolding bare
  bare-append [] b = refl
  bare-append (c ∷ cs) b = elim (Bool-cases (p c)) [
    | inl e ↦ rw e (bare-append cs b)
    | inr e ↦ rw e (ap (◌∷◌ c) (bare-append cs b))
  ]

  pub bare-one : (c : ℕ) → p c ≡ true → bare p (c ∷ []) ≡ []
  unfolding bare
  bare-one c e = rw e

  -- The fields of a text are the text less its spaces, once each and in order.
  pub fields_from-bare :
      (word s : Text) → bare p (flatten (fields_from p word s)) ≡ bare p (reverse word) ++ bare p s
  unfolding bare
  fields_from-bare [] [] = refl
  fields_from-bare (w ∷ ws) [] = simp append-nil
  fields_from-bare [] (c ∷ cs) = elim (Bool-cases (p c)) [
    | inl e ↦ rw e (fields_from-bare [] cs)
    | inr e ↦ rw e (fields_from-bare (c ∷ []) cs ∙ rw e)
  ]
  fields_from-bare (w ∷ ws) (c ∷ cs) = elim (Bool-cases (p c)) [
    | inl e ↦ rw e (
        bare-append (reverse (w ∷ ws)) (flatten (fields_from p [] cs))
        ∙ ap (◌++◌ (bare p (reverse (w ∷ ws)))) (fields_from-bare [] cs))
    | inr e ↦ rw e (
        fields_from-bare (c ∷ w ∷ ws) cs
        ∙ rw (reverse-cons c (w ∷ ws), bare-append, append_assoc, e))
  ]
