-- ===== src/Base/Distinct.antt =====
-- Lists of texts without repetition.
use mathlib.Core.Path.{◌≡◌, refl}
use mathlib.Core.Bool.{false, ◌||◌}
use mathlib.Core.List.{List, [], ◌∷◌, ◌++◌}
use native.Mathlib.Omega.{arith}
use prukka.Base.Lists.{All}
use prukka.Base.Strings.{Text, text_eq, contains}

abbrev pub IsDistinct : List Text → Type 0
IsDistinct [] = Unit
IsDistinct (x ∷ xs) = (contains x xs ≡ false) × IsDistinct xs

pub text_eq_comm : (a b : Text) → text_eq a b ≡ text_eq b a
text_eq_comm [] [] = refl
text_eq_comm [] (y ∷ ys) = refl
text_eq_comm (x ∷ xs) [] = refl
text_eq_comm (x ∷ xs) (y ∷ ys) = ground (arith, text_eq_comm xs ys)

pub contains-append :
    (x : Text) (xs ys : List Text) → contains x (xs ++ ys) ≡ (contains x xs || contains x ys)
contains-append x [] ys = refl
contains-append x (z ∷ xs) ys = ground (arith, contains-append x xs ys)

pub IsDistinct-snoc :
    (xs : List Text) (y : Text) → contains y xs ≡ false → IsDistinct xs → IsDistinct (xs ++ y ∷ [])
IsDistinct-snoc [] y c d = (refl, tt)
IsDistinct-snoc (x ∷ xs) y c d = (
  ground (arith, contains-append x xs (y ∷ []), text_eq_comm x y, d.0),
  IsDistinct-snoc xs y (ground arith) d.1,
)

-- None of the second list stands in the first.
abbrev pub Apart : List Text → List Text → Type 0
Apart seen xs = All (λ x. contains x seen ≡ false) xs

pub Apart-nil : (xs : List Text) → Apart [] xs
Apart-nil [] = tt
Apart-nil (x ∷ xs) = (refl, Apart-nil xs)

pub Apart-cons :
    (x : Text) (seen xs : List Text) → contains x xs ≡ false → Apart seen xs → Apart (x ∷ seen) xs
Apart-cons x seen [] c a = tt
Apart-cons x seen (y ∷ ys) c a =
    (ground (arith, text_eq_comm x y, a.0), Apart-cons x seen ys (ground arith) a.1)

pub Apart-uncons :
    (x : Text) (seen xs : List Text) → Apart (x ∷ seen) xs → (contains x xs ≡ false) × Apart seen xs
Apart-uncons x seen [] a = (refl, tt)
Apart-uncons x seen (y ∷ ys) a =
    let (c, rest) = Apart-uncons x seen ys a.1 in
    (ground (arith, text_eq_comm x y, a.0), (ground (arith, a.0), rest))
